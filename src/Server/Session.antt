-- ===== src/Server/Session.antt =====
-- NECROAuth/Server/Auth/AuthSession.h and AuthSession.cpp: one connection of the server.
pub mod Greet
pub mod Reply
pub mod Admit
use necroauth.Prelude.{
  ℕ, ◌+◌, Bool, true, false, ◌&&◌, List, [], ◌∷◌, Option, none, some, ◌==◌, if◌then◌else◌, Result,
  ok, fault, Fault, ◌>>=◌, of_le,
}
use necroauth.Database.Connection.{Executed}
use necroauth.AuthCodes.{
  SocketStatus, PacketId, packet_id_code, AuthResult, auth_result_code, version_offset,
  username_size_offset, username_offset,
}
use necroauth.Aes.{Iv, Random}
use necroauth.Packet.{Packet, put_u8, put_u16}
use necroauth.Packet
use necroauth.NetworkMessage.{NetworkMessage, read_at, of_packet}
use necroauth.Database.{Statement, Value, SqlStatement, prepare, bind, request}
use necroauth.Worker.{Worker, enqueue}
use necroauth.Socket.{Socket, queue_packet}

pub record AccountData : Type 0 where
  pub username : List ℕ
  pub account_id : ℕ
  pub session_key : List ℕ
  pub iv : Iv
  pub version_major : ℕ
  pub version_minor : ℕ
  pub version_revision : ℕ

-- `AuthSession`. `this` is its address, which a callback captures; the two texts are what
-- `GetRemoteAddress` and `GetRemoteAddressAndPort` return.
pub record Session : Type 0 where
  pub this : ℕ
  pub socket : Socket
  pub account : AccountData
  pub status : SocketStatus
  pub remote_address : List ℕ
  pub remote_address_and_port : List ℕ

-- What a session meets outside: the positions that a new message happens to hold, and the row that
-- the direct connection returns for `CHECK_PASSWORD`.
pub record Env : Type 0 where
  pub stale_rpos : ℕ
  pub stale_wpos : ℕ
  pub password_row : ℕ → Executed (Option (List ℕ))

-- A session at work, with the parts of the server that it changes.
pub record Focus : Type 0 where
  pub self : Session
  pub worker : Worker
  pub random : Random

-- `CLIENT_VERSION_MAJOR`, `CLIENT_VERSION_MINOR`, `CLIENT_VERSION_REVISION`
abbrev pub client_version : ℕ × ℕ × ℕ
client_version = (1, 0, 0)

unfoldable pub read_u8 : NetworkMessage → ℕ → Result ℕ
unfolding read_at
read_u8 m p = read_at m p 1 >>= λ bs. ok (of_le bs)

unfoldable pub read_u16 : NetworkMessage → ℕ → Result ℕ
unfolding read_at
read_u16 m p = read_at m p 2 >>= λ bs. ok (of_le bs)

unfoldable pub read_u32 : NetworkMessage → ℕ → Result ℕ
unfolding read_at
read_u32 m p = read_at m p 4 >>= λ bs. ok (of_le bs)

abbrev pub with_socket : Focus → Socket → Focus
with_socket f s = record f { self = record f.self { socket = s } }

abbrev pub in_buffer : Focus → NetworkMessage
in_buffer f = f.self.socket.in_buffer

-- What the handler of a gather-info packet records and asks for.
unfoldable pub greeted : Focus → List ℕ → ℕ → ℕ → ℕ → SqlStatement → Focus
greeted f login major minor revision statement = record f {
  self = record f.self {
    account = record f.self.account {
      username = login;
      version_major = major;
      version_minor = minor;
      version_revision = revision;
    };
  };
  worker = enqueue f.worker (record (request false (bind statement (Value.text login))) {
    callback = some f.self.this;
    notice = true;
  });
}

-- `HandleAuthLoginGatherInfoPacket()`
unfoldable pub handle_gather_info : Focus → Result (Focus × Bool)
unfolding greeted
handle_gather_info f = do
  let m = f.self.socket.in_buffer
  username_size ← read_u8 m (m.rpos + username_size_offset)
  login ← read_at m (m.rpos + username_offset) username_size
  major ← read_u8 m (m.rpos + version_offset)
  minor ← read_u8 m (m.rpos + (version_offset + 1))
  revision ← read_u8 m (m.rpos + (version_offset + 2))
  statement ← prepare Statement.sel_account_id_by_name
  ok (greeted f login major minor revision statement, true)

-- `NetworkMessage m(packet); QueuePacket(std::move(m));`
unfoldable pub reply : Env → Session → Packet → Result Session
reply e s p = do
  m ← of_packet e.stale_rpos e.stale_wpos p
  ok (record s { socket = queue_packet s.socket m })

-- `DBCallback_AuthLoginGatherInfoPacket`, with the row that `fetchOne` returns.
abbrev pub version_matches : AccountData → Bool
version_matches a =
    a.version_major == client_version.0
    && (a.version_minor == client_version.1 && a.version_revision == client_version.2)

pub gather_info_result : AccountData → Option ℕ → AuthResult
gather_info_result a none = AuthResult.failed_unknown_account
gather_info_result a (some id) =
    if version_matches a then AuthResult.success else AuthResult.failed_wrong_client_version

unfoldable pub admit : Session → Option ℕ → Session
admit s none = s
admit s (some id) =
    if version_matches s.account
    then (record s {
      account = record s.account { account_id = id };
      status = SocketStatus.login_attempt;
    })
    else s

unfoldable pub db_callback_gather_info : Env → Option ℕ → Session → Result Session
unfolding gather_info_result admit reply
db_callback_gather_info e row s = do
  p ← put_u8 (packet_id_code PacketId.login_gather_info) Packet.new
  q ← put_u8 (auth_result_code (gather_info_result s.account row)) p
  reply e (admit s row) q

-- `std::string::operator==`
unfoldable pub bytes_eq : List ℕ → List ℕ → Bool
bytes_eq [] [] = true
bytes_eq [] (y ∷ ys) = false
bytes_eq (x ∷ xs) [] = false
bytes_eq (x ∷ xs) (y ∷ ys) = x == y && bytes_eq xs ys

-- `for (int i = 0; ...) packet << key[i];`
unfoldable pub put_each : List ℕ → Packet → Result Packet
put_each [] p = ok p
put_each (k ∷ ks) p = put_u8 k p >>= λ q. put_each ks q

-- `while (clientsIVRandomPrefix == m_data.iv.prefix) m_data.iv.RandomizePrefix();`
unfoldable pub avoid_prefix : ℕ → Iv → List ℕ → Result (Iv × List ℕ)
avoid_prefix client iv [] = if client == iv.prefix then fault Fault.exhausted else ok (iv, [])
avoid_prefix client iv (p ∷ ps) =
    let next = avoid_prefix client (record iv { prefix = p }) ps in
    if client == iv.prefix then next else ok (iv, p ∷ ps)
