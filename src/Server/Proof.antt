-- ===== src/Server/Proof.antt =====
-- `HandleAuthLoginProofPacket` of NECROAuth/Server/Auth/AuthSession.cpp: the password check, its log
-- on failure, and on success the session that is made.
pub mod Prefix
pub mod Refuse
pub mod Accept
pub mod Outcome
use necroauth.Prelude.{
  ℕ, ◌+◌, ◌-◌, Bool, true, Option, none, some, Fault, fault, List, [], ◌∷◌, if◌then◌else◌, Result,
  ok, ◌>>=◌,
}
use necroauth.Database.Connection.{login_execute}
use necroauth.AuthCodes.{
  PacketId, packet_id_code, LoginProofResult, proof_result_code, aes_128_key_size, iv_prefix_offset,
  password_size_offset, password_offset, c_proof_sizeof, c_proof_initial_size,
}
use necroauth.Aes.{reset_counter, generate_session_key}
use necroauth.Packet.{Packet, put_u8, put_u16}
use necroauth.Packet
use necroauth.NetworkMessage.{read_at}
use necroauth.Database.{Statement, Value, DbRequest, prepare, bind, request}
use necroauth.Worker.{enqueue}
use necroauth.Server.Session.{
  Session, Focus, Env, read_u8, read_u32, reply, bytes_eq, put_each, avoid_prefix,
}

-- "WRONG_PASSWORD"
abbrev wrong_password : List ℕ
wrong_password =
    b'W' ∷ b'R' ∷ b'O' ∷ b'N' ∷ b'G' ∷ b'_' ∷ b'P' ∷ b'A' ∷ b'S' ∷ b'S' ∷ b'W' ∷ b'O' ∷ b'R' ∷ b'D'
    ∷ []

-- The request of a wrong password: who tried, from where.
unfoldable pub wrong_password_request : Session → Result DbRequest
wrong_password_request s = do
  statement ← prepare Statement.ins_log_wrong_password
  let a = bind statement (Value.text s.remote_address_and_port)
  let b = bind a (Value.text s.account.username)
  ok (request true (bind b (Value.text wrong_password)))

-- The two requests of a login, in the order in which they are enqueued.
unfoldable pub delete_sessions_request : Session → Result DbRequest
delete_sessions_request s = do
  statement ← prepare Statement.del_prev_sessions
  ok (request true (bind statement (Value.number s.account.account_id)))

unfoldable pub new_session_request : Session → List ℕ → Result DbRequest
new_session_request s greetcode = do
  statement ← prepare Statement.ins_new_session
  let a = bind statement (Value.number s.account.account_id)
  let b = bind a (Value.blob s.account.session_key)
  let c = bind b (Value.text s.remote_address)
  ok (request true (bind c (Value.blob greetcode)))

-- `!authenticated`
unfoldable pub refuse : Focus → Packet → Result (Focus × Packet)
unfolding wrong_password_request
refuse f p = do
  req ← wrong_password_request f.self
  q ← put_u8 (proof_result_code LoginProofResult.failed) p
  r ← put_u16 (c_proof_sizeof - c_proof_initial_size - aes_128_key_size - aes_128_key_size) q
  ok (record f { worker = enqueue f.worker req }, r)

-- The other branch. `client` is the prefix that the client sent.
unfoldable pub accept : Focus → ℕ → Packet → Result (Focus × Packet)
unfolding delete_sessions_request new_session_request
accept f client p = do
  q ← put_u8 (proof_result_code LoginProofResult.success) p
  r ← put_u16 (c_proof_sizeof - c_proof_initial_size) q
  (iv, prefixes) ← avoid_prefix client f.self.account.iv f.random.prefixes
  (key, random) ← generate_session_key (record f.random { prefixes = prefixes })
  let account = record f.self.account { iv = reset_counter iv; session_key = key }
  let self = record f.self { account = account }
  t ← put_each key r
  (greetcode, random') ← generate_session_key random
  delete ← delete_sessions_request self
  insert ← new_session_request self greetcode
  u ← put_each greetcode t
  ok (
    record f { self = self; worker = enqueue (enqueue f.worker delete) insert; random = random' },
    u,
  )

-- `row[0].get<std::string>()`, which throws where there is no row.
pub stored_password : Option (List ℕ) → Result (List ℕ)
stored_password none = fault Fault.thrown
stored_password (some password) = ok password

-- `authenticated`, and the branch on it.
unfoldable pub decide : Bool → Focus → ℕ → Packet → Result (Focus × Packet)
decide authenticated f client p = if authenticated then accept f client p else refuse f p

unfoldable pub check_proof : Env → Focus → Packet → Result (Focus × Packet)
check_proof e f p = do
  let m = f.self.socket.in_buffer
  _ ← prepare Statement.check_password
  row ← login_execute (e.password_row f.self.account.account_id)
  password ← stored_password row
  given_size ← read_u8 m (m.rpos + password_size_offset)
  given ← read_at m (m.rpos + password_offset) given_size
  client ← read_u32 m (m.rpos + iv_prefix_offset)
  decide (bytes_eq password given) f client p

unfoldable pub answer_proof : Env → Focus × Packet → Result (Focus × Bool)
answer_proof e (f, packet) = do self ← reply e f.self packet; ok (record f { self = self }, true)

-- `HandleAuthLoginProofPacket()`
unfoldable pub handle_login_proof : Env → Focus → Result (Focus × Bool)
handle_login_proof e f = do
  p ← put_u8 (packet_id_code PacketId.login_attempt) Packet.new
  r ← check_proof e f p
  answer_proof e r
