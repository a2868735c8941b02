-- ===== src/Server/Read.antt =====
-- `AuthSession::ReadCallback` of NECROAuth/Server/Auth/AuthSession.cpp: the loop that takes packets
-- off the in-buffer. Sizes are `uint16_t`, and their sum wraps.
pub mod Rounds
pub mod Branches
pub mod Owners
pub mod Total
pub mod Hang
use necroauth.Prelude.{
  ℕ, zero, suc, ◌+◌, ◌%◌, ◌^◌, Bool, true, false, Option, none, some, ltb, ◌==◌, if◌then◌else◌,
  Result, ok, fault, Fault, ◌>>=◌,
}
use necroauth.AuthCodes.{
  SocketStatus, status_eq, PacketId, packet_id_code, size_offset, s_max_accepted_gather_info_size,
  s_gather_info_initial_size, s_proof_initial_size,
}
use necroauth.NetworkMessage.{get_active_size, read_completed, clear}
use necroauth.Socket.{Socket, closing, close}
use necroauth.Server.Session.{
  Focus, Env, with_socket, in_buffer, read_u8, read_u16, handle_gather_info,
}
use necroauth.Server.Proof.{handle_login_proof}

-- The entries of `Handlers`.
pub data Handler : Type 0 where
  gather_info login_proof : Handler

-- `InitHandlers` and `Handlers.find(cmd)`.
abbrev pub find_handler : ℕ → Option Handler
find_handler cmd =
    if cmd == packet_id_code PacketId.login_gather_info
    then some gather_info
    else (if cmd == packet_id_code PacketId.login_attempt then some login_proof else none)

-- The state that a handler wants, its fixed part, and the largest packet that it accepts.
abbrev pub wanted : Handler → SocketStatus
wanted gather_info = SocketStatus.gather_info
wanted login_proof = SocketStatus.login_attempt

abbrev pub initial_size : Handler → ℕ
initial_size gather_info = s_gather_info_initial_size
initial_size login_proof = s_proof_initial_size

abbrev pub max_size : Handler → ℕ
max_size gather_info = s_max_accepted_gather_info_size
max_size login_proof = s_max_accepted_gather_info_size

unfoldable pub run_handler : Handler → Env → Focus → Result (Focus × Bool)
run_handler gather_info e f = handle_gather_info f
run_handler login_proof e f = handle_login_proof e f

-- One round of the loop leaves it, or goes on.
pub data Next : Type 0 where
  leave : Focus → Next
  again : Focus → Next

abbrev pub closed : Focus → Focus
closed f = with_socket f (closing f.self.socket)

abbrev pub consumed : Focus → ℕ → Focus
consumed f n = with_socket f (record f.self.socket { in_buffer = read_completed (in_buffer f) n })

-- `size += pcktData->size;`
abbrev pub whole_size : Handler → ℕ → ℕ
whole_size h field = (initial_size h + field) % 2 ^ 16

unfoldable pub handled : ℕ → Focus × Bool → Next
handled size (f, good) = if good then again (consumed f size) else leave (closed f)

unfoldable pub sized : Handler → Env → Focus → ℕ → Result Next
sized h e f size =
    if ltb (max_size h) size
    then ok (leave (closed f))
    else (if ltb (get_active_size (in_buffer f)) size
        then ok (leave f)
        else (run_handler h e f >>= λ r. ok (handled size r)))

unfoldable pub dispatch : Env → Focus → Option Handler → Result Next
dispatch e f none =
    ok (leave (with_socket f (record f.self.socket { in_buffer = clear (in_buffer f) })))
dispatch e f (some h) =
    if status_eq f.self.status (wanted h)
    then (if ltb (get_active_size (in_buffer f)) (initial_size h)
        then ok (leave f)
        else (read_u16 (in_buffer f) ((in_buffer f).rpos + size_offset) >>= λ field.
            sized h e f (whole_size h field)))
    else ok (leave (closed f))

unfoldable pub read_round : Env → Focus → Result Next
read_round e f =
    if get_active_size (in_buffer f) == 0
    then ok (leave f)
    else (read_u8 (in_buffer f) (in_buffer f).rpos >>= λ cmd. dispatch e f (find_handler cmd))

-- `ReadCallback()`, in so many rounds at most; `none` if they do not suffice.
unfoldable pub read_callback : ℕ → Env → Focus → Option (Result Focus)
read_callback zero e f = none
read_callback (suc fuel) e f = elim (read_round e f) [
  | fault x ↦ some (fault x)
  | ok next ↦ elim next [ leave g ↦ some (ok g) | again g ↦ read_callback fuel e g ]
]
