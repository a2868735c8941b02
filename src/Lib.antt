-- ===== src/Lib.antt =====
-- NECROAuth: the authentication server of the NECRO engine and its client, and what they share.
--
-- A client connects over TLS and sends a greeting with its version and username. The server asks its
-- database, through a worker thread, for the account, and answers. The client then sends a proof,
-- with its password and a random prefix; the server compares the password with the stored one, and
-- on success makes a session key and a greetcode, records the session, and sends both.
--
-- Files, and the code that each is about (paths from the repository's root; the files directly in
-- the root are an older copy of those under src/):
--   Packet: src/shared/Packets/Packet.h and Packet.cpp, the buffer in which packets are built
--   NetworkMessage: src/shared/Packets/NetworkMessage.h, the buffer between socket and packets, with
--     its encryption in NetworkMessage/Crypt
--   AuthCodes: src/shared/Authentication/AuthCodes.h, codes, sizes and offsets of the packets
--   Aes: src/shared/Encryption/AES.h, initialisation vectors and random keys, and in Aes/Gcm the
--     chains of calls that encrypt and decrypt
--   Database: src/database/DB/LoginDatabase.h and Threading/DBRequest.h, statements and requests
--   Worker: src/database/DB/Threading/DatabaseWorker.h, the thread that executes requests
--   Socket: src/shared/Sockets/TCPSocket.h and TCPSocket.cpp, sending and receiving
--   Server/Session, Server/Proof, Server/Read: src/NECROAuth/Server/Auth/AuthSession.h and
--     AuthSession.cpp, the handlers and the read loop of a connection
--   Server/Poll: src/NECROAuth/Server/Auth/TCPSocketManager.h and TCPSocketManager.cpp; Server/Owners,
--     Server/Read/Owners and Server/Poll/Callbacks to Serve follow the callbacks of the database
--   Server/Main: src/NECROAuth/Server/NECROServer.cpp and main.cpp, start-up, the loop and shut-down
--     beside the thread of the database worker, with Worker/Thread and Database/Connection;
--     Server/Main/Ends is about the end of the shut-down
--   Client/Session: src/NECROClient/Client/Online/AuthSession.h and AuthSession.cpp
--   Client/Manager: src/NECROClient/Client/Online/AuthManager.h and AuthManager.cpp
--   World: src/NECROClient/Engine/World/World.cpp, Cell.cpp and Entity/Entity.cpp, which cell of the
--     client's map owns which entity: World/Count and World/Place about single cells, World/Keeps
--     about additions and removals, World/Update to World/Sweep about the update, World/Edge about
--     entities that leave the map
--   Console: src/NECROClient/Engine/Console/Console.cpp and Cmd.cpp, with the functions that they use
--     of UI/InputField.cpp and Utility/ClientUtility.h; Console/File is the file of the history
--   Assets: src/NECROClient/Engine/Assets, the rows of Mapfile.cpp and the tile sets of TilesetDef.h
--     and TilesetDef.cpp: Assets/Tileset/File is the loader, on fuel for the rounds of its two loops, which
--     flows off its end without a value,
--     and Assets/Tileset/Printed, with Rounds, about the files that it reads as they
--     were meant
--   Input: src/NECROClient/Engine/Input/Input.cpp, a frame of keyboard, mouse and typing
--   Protocol: what the server makes of the packets that the client builds, by both models; Protocol/Run is a whole
--     login, the handlers of both sides in the order of their poll loops, by way of Socket/Idle and
--     Socket/Transfer about sockets with one packet at a time
--   Prelude: the library's names passed on, lists over the native numbers, stretches of byte
--     vectors, machine words, and the failures of C++; Tests: runs, and each theorem at an input
--
-- Functions keep the source's names in snake case: `HandleAuthLoginProofPacket` is
-- `handle_login_proof`, `ReadCallback` is `read_callback`, `CompactData` is `compact_data`. An object
-- is a record and a method a function from the old to the new one; a method that may throw or whose
-- behaviour may be undefined returns a `Result`. Sizes and positions are 64-bit and wrap, the size
-- of a packet wraps at 16 bits, and lengths are cast to 8 bits, as in the source.
--
-- The system, OpenSSL, MySQL and the random numbers are outside: what they answer is an argument
-- (`Written`, `Received`, `Waited`, `Handshake`, `Env`, `Random`, `Evp`), so the theorems hold for every
-- answer. What uninitialised memory holds is an argument too (`stale_rpos`, `stale_wpos`).
--
-- The read loops run on fuel, one unit for each round; `none` is a run that needs more. For the
-- server, one round more than there are unread bytes is enough unless the 16-bit sum of a size is
-- zero. `Fault.exhausted` says that a loop over answers from outside, a handshake or the draws of a
-- prefix, met the end of the answers given. The worker and the main thread are a step relation, one
-- step for each critical section.
--
-- A thread that waits on the condition variable is woken by a notification since it began to wait, or
-- spuriously. A socket's `pollfd` is part of the socket: that the pointer `m_pfd` dangles once the
-- manager's vector was reallocated is not in the model, and theorems about answers and packets are
-- about sockets whose `pollfd` is there. The number of bytes that one call of OpenSSL sends or receives
-- is not narrowed to the `int` that counts it, so it is taken to be below 2^31.
--
-- A pointer is an index: of the session that a callback captured, of a cell in the map; a pointer to
-- an entity is the entity's ID, which its constructor makes unique. Positions in the client's world
-- are floats, so the cell that a position is over is an argument, and floats are compared by an
-- argument too.
--
-- Not modelled: the set-up of sockets and of OpenSSL; logging; the world server, which does nothing
-- yet; `Update`'s work on the cell that is selected in the
-- client's world, which edits the map; and of the client's engine its rendering, lighting, physics, animation, and the assets other
-- than tile sets, which are drawing or work on floats.
pub mod Prelude
pub mod Assets
pub mod Input
pub mod Packet
pub mod NetworkMessage
pub mod AuthCodes
pub mod Aes
pub mod Database
pub mod Worker
pub mod Socket
pub mod Server
pub mod Client
pub mod World
pub mod Console
pub mod Protocol
pub mod Tests
