-- ===== src/Client/Session.antt =====
-- NECROClient/Client/Online/AuthSession.h and AuthSession.cpp, with the `AuthData` of AuthManager.h
-- that its handlers fill. Lines for the console are left out.
pub mod Read
pub mod Packets
use necroauth.Prelude.{
  ℕ, ◌+◌, ◌-◌, ◌%◌, Bool, true, false, Option, none, some, List, [], length, ◌==◌, if◌then◌else◌,
  Result, ok, ◌>>=◌, of_le,
}
use necroauth.AuthCodes.{
  SocketStatus, PacketId, packet_id_code, AuthResult, auth_result_code, LoginProofResult,
  proof_result_code, aes_128_key_size, s_gather_info_sizeof, s_gather_info_initial_size,
  s_proof_sizeof, s_proof_initial_size, error_offset, session_key_offset, greetcode_offset,
}
use necroauth.Aes.{Iv, reset_counter}
use necroauth.Packet.{Packet, put_u8, put_u16, put_u32, put_string}
use necroauth.Packet
use necroauth.NetworkMessage.{NetworkMessage, read_at, of_packet}
use necroauth.Socket.{Socket, closing, close, queue_packet}

pub record AuthData : Type 0 where
  pub username : List ℕ
  pub password : List ℕ
  pub ip_address : List ℕ
  pub session_key : List ℕ
  pub greetcode : List ℕ
  pub iv : Iv
  pub has_authenticated : Bool

-- `AuthSession` with the data of its `AuthManager`.
pub record Session : Type 0 where
  pub socket : Socket
  pub status : SocketStatus
  pub account : AuthData

-- What the session meets outside: the positions that a new message happens to hold, what
-- `RandomizePrefix` draws, and the local address, if the system tells it.
pub record Env : Type 0 where
  pub stale_rpos : ℕ
  pub stale_wpos : ℕ
  pub drawn_prefix : ℕ
  pub local_address : Option (List ℕ)

-- `CLIENT_VERSION_MAJOR`, `CLIENT_VERSION_MINOR`, `CLIENT_VERSION_REVISION`
abbrev pub client_version : ℕ × ℕ × ℕ
client_version = (1, 0, 0)

-- `NetworkMessage m(packet); QueuePacket(std::move(m));`
unfoldable pub post : Env → Session → Packet → Result Session
post e s p = do
  m ← of_packet e.stale_rpos e.stale_wpos p
  ok (record s { socket = queue_packet s.socket m })

-- The greet packet of `OnConnectedCallback`. Lengths are cast to `uint8_t`.
pub greet_packet : List ℕ → Result Packet
greet_packet username = do
  let size = length username % 256
  a ← put_u8 (packet_id_code PacketId.login_gather_info) Packet.new
  b ← put_u8 (auth_result_code AuthResult.success) a
  c ← put_u16 (s_gather_info_sizeof - s_gather_info_initial_size + size - 1) b
  d ← put_u8 client_version.0 c
  f ← put_u8 client_version.1 d
  g ← put_u8 client_version.2 f
  h ← put_u8 size g
  put_string username h

abbrev pub with_address : AuthData → Option (List ℕ) → AuthData
with_address a none = a
with_address a (some ip) = record a { ip_address = ip }

-- `OnConnectedCallback()`
unfoldable pub on_connected : Env → Session → Result Session
on_connected e s = do
  let t = record s { account = with_address s.account e.local_address }
  p ← greet_packet t.account.username
  post e t p

-- The proof packet of `HandlePacketAuthLoginGatherInfoResponse`.
unfoldable pub proof_packet : ℕ → List ℕ → Result Packet
proof_packet prefix password = do
  let size = length password % 256
  a ← put_u8 (packet_id_code PacketId.login_attempt) Packet.new
  b ← put_u8 (proof_result_code LoginProofResult.success) a
  c ← put_u16 (s_proof_sizeof - s_proof_initial_size + size - 1) b
  d ← put_u32 prefix c
  f ← put_u8 size d
  put_string password f

-- The state after the answer to the greeting, before the proof packet is posted: a new prefix, and
-- no password left.
abbrev pub prepared : Env → Session → Session
prepared e s = record s {
  status = SocketStatus.login_attempt;
  account = record s.account {
    iv = record { prefix = e.drawn_prefix; counter = 0 };
    password = [];
  };
}

unfoldable pub read_error : NetworkMessage → Result ℕ
read_error m = read_at m error_offset 1 >>= λ bs. ok (of_le bs)

-- `HandlePacketAuthLoginGatherInfoResponse()`, which reads from the base of the buffer. Every answer
-- but a success returns false.
unfoldable pub handle_gather_info_response : Env → Session → Result (Session × Bool)
handle_gather_info_response e s = do
  error ← read_error s.socket.in_buffer
  if error == auth_result_code AuthResult.success
      then (do
        p ← proof_packet e.drawn_prefix s.account.password
        t ← post e (prepared e s) p
        ok (t, true))
      else ok (s, false)

-- `HandlePacketAuthLoginProofResponse()`, which reads from the base of the buffer, closes the socket
-- and tells the `AuthManager`.
unfoldable pub handle_proof_response : Session → Result (Session × Bool)
handle_proof_response s = do
  error ← read_error s.socket.in_buffer
  if error == proof_result_code LoginProofResult.success
      then (do
        key ← read_at s.socket.in_buffer session_key_offset aes_128_key_size
        greetcode ← read_at s.socket.in_buffer greetcode_offset aes_128_key_size
        let account = record s.account {
          session_key = key;
          greetcode = greetcode;
          has_authenticated = true;
        }
        ok (
          record s { status = SocketStatus.authed; account = account; socket = closing s.socket },
          true,
        ))
      else ok (s, false)
