-- ===== src/AuthCodes.antt =====
-- shared/Authentication/AuthCodes.h: the states of a connection, the codes on the wire, and the
-- sizes and field offsets of the packed packet structures.
use necroauth.Prelude.{ℕ, ◌+◌, ◌-◌, Bool, true, false}

pub data SocketStatus : Type 0 where
  gather_info login_attempt authed closed : SocketStatus

abbrev pub status_eq : SocketStatus → SocketStatus → Bool
status_eq SocketStatus.gather_info SocketStatus.gather_info = true
status_eq SocketStatus.login_attempt SocketStatus.login_attempt = true
status_eq SocketStatus.authed SocketStatus.authed = true
status_eq SocketStatus.closed SocketStatus.closed = true
status_eq _ _ = false

pub data PacketId : Type 0 where
  login_gather_info login_attempt confirm : PacketId

abbrev pub packet_id_code : PacketId → ℕ
packet_id_code PacketId.login_gather_info = 0x00
packet_id_code PacketId.login_attempt = 0x01
packet_id_code PacketId.confirm = 0x02

pub data AuthResult : Type 0 where
  success failed_unknown_account failed_account_banned failed_wrong_password : AuthResult
  failed_wrong_client_version failed_username_in_use : AuthResult

abbrev pub auth_result_code : AuthResult → ℕ
auth_result_code AuthResult.success = 0x00
auth_result_code AuthResult.failed_unknown_account = 0x01
auth_result_code AuthResult.failed_account_banned = 0x02
auth_result_code AuthResult.failed_wrong_password = 0x03
auth_result_code AuthResult.failed_wrong_client_version = 0x04
auth_result_code AuthResult.failed_username_in_use = 0x05

pub data LoginProofResult : Type 0 where
  success failed : LoginProofResult

abbrev pub proof_result_code : LoginProofResult → ℕ
proof_result_code LoginProofResult.success = 0x00
proof_result_code LoginProofResult.failed = 0x01

-- `AES_128_KEY_SIZE`, of Encryption/AES.h.
abbrev pub aes_128_key_size : ℕ
aes_128_key_size = 16

-- `SPacketAuthLoginGatherInfo`: id, error, size (2), three version bytes, username size, and the
-- first byte of the username.
abbrev pub s_gather_info_sizeof : ℕ
s_gather_info_sizeof = 1 + 1 + 2 + 1 + 1 + 1 + 1 + 1

abbrev pub size_offset : ℕ
size_offset = 2

abbrev pub version_offset : ℕ
version_offset = 4

abbrev pub username_size_offset : ℕ
username_size_offset = 7

abbrev pub username_offset : ℕ
username_offset = 8

abbrev pub max_username_length : ℕ
max_username_length = 16 - 1

abbrev pub s_max_accepted_gather_info_size : ℕ
s_max_accepted_gather_info_size = s_gather_info_sizeof + max_username_length

abbrev pub s_gather_info_initial_size : ℕ
s_gather_info_initial_size = 4

-- `CPacketAuthLoginGatherInfo`: id, error.
abbrev pub c_gather_info_sizeof : ℕ
c_gather_info_sizeof = 1 + 1

abbrev pub error_offset : ℕ
error_offset = 1

-- `SPacketAuthLoginProof`: id, error, size (2), the IV prefix (4), password size, and the first
-- byte of the password.
abbrev pub s_proof_sizeof : ℕ
s_proof_sizeof = 1 + 1 + 2 + 4 + 1 + 1

abbrev pub iv_prefix_offset : ℕ
iv_prefix_offset = 4

abbrev pub password_size_offset : ℕ
password_size_offset = 8

abbrev pub password_offset : ℕ
password_offset = 9

abbrev pub max_password_length : ℕ
max_password_length = 16 - 1

abbrev pub s_max_accepted_proof_size : ℕ
s_max_accepted_proof_size = s_proof_sizeof + max_password_length

abbrev pub s_proof_initial_size : ℕ
s_proof_initial_size = 4

-- `CPacketAuthLoginProof`: id, error, size (2), session key, greetcode.
abbrev pub c_proof_sizeof : ℕ
c_proof_sizeof = 1 + 1 + 2 + aes_128_key_size + aes_128_key_size

abbrev pub session_key_offset : ℕ
session_key_offset = 4

abbrev pub greetcode_offset : ℕ
greetcode_offset = 20

abbrev pub c_proof_initial_size : ℕ
c_proof_initial_size = 4
