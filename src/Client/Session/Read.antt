-- ===== src/Client/Session/Read.antt =====
-- `AuthSession::ReadCallback` of NECROClient/Client/Online/AuthSession.cpp.
use necroauth.Prelude.{
  ℕ, zero, suc, ◌+◌, ◌%◌, ◌^◌, Bool, Option, none, some, ltb, ◌==◌, if◌then◌else◌, Result, ok,
  fault, ◌>>=◌, of_le,
}
use necroauth.AuthCodes.{
  SocketStatus, status_eq, PacketId, packet_id_code, size_offset, c_gather_info_sizeof,
  c_proof_initial_size, c_proof_sizeof,
}
use necroauth.NetworkMessage.{get_active_size, read_completed, clear, read_at}
use necroauth.Socket.{closing}
use necroauth.Client.Session.{Session, Env, handle_gather_info_response, handle_proof_response}

pub data Handler : Type 0 where
  gather_info login_proof : Handler

-- `InitHandlers` and `Handlers.find(cmd)`.
abbrev pub find_handler : ℕ → Option Handler
find_handler cmd =
    if cmd == packet_id_code PacketId.login_gather_info
    then some gather_info
    else (if cmd == packet_id_code PacketId.login_attempt then some login_proof else none)

abbrev pub wanted : Handler → SocketStatus
wanted gather_info = SocketStatus.gather_info
wanted login_proof = SocketStatus.login_attempt

abbrev pub initial_size : Handler → ℕ
initial_size gather_info = c_gather_info_sizeof
initial_size login_proof = c_proof_initial_size

unfoldable pub run_handler : Handler → Env → Session → Result (Session × Bool)
run_handler gather_info e s = handle_gather_info_response e s
run_handler login_proof e s = handle_proof_response s

pub data Next : Type 0 where
  leave : Session → Next
  again : Session → Next

abbrev pub closed : Session → Session
closed s = record s { socket = closing s.socket }

abbrev pub consumed : Session → ℕ → Session
consumed s n = record s {
  socket = record s.socket { in_buffer = read_completed s.socket.in_buffer n };
}

unfoldable pub handled : ℕ → Session × Bool → Next
handled size (s, good) = if good then again (consumed s size) else leave (closed s)

unfoldable pub complete : Handler → Env → Session → ℕ → Result Next
complete h e s size =
    if ltb (get_active_size s.socket.in_buffer) size
    then ok (leave s)
    else (run_handler h e s >>= λ r. ok (handled size r))

-- Only the proof response has a size field; it may not exceed the structure.
unfoldable pub sized : Handler → Env → Session → Result Next
sized gather_info e s = complete gather_info e s (initial_size gather_info)
sized login_proof e s = do
  bs ← read_at s.socket.in_buffer (s.socket.in_buffer.rpos + size_offset) 2
  let size = (initial_size login_proof + of_le bs) % 2 ^ 16
  if ltb c_proof_sizeof size then ok (leave (closed s)) else complete login_proof e s size

unfoldable pub dispatch : Env → Session → Option Handler → Result Next
dispatch e s none =
    ok (leave (record s { socket = record s.socket { in_buffer = clear s.socket.in_buffer } }))
dispatch e s (some h) =
    if status_eq s.status (wanted h)
    then (if ltb (get_active_size s.socket.in_buffer) (initial_size h)
        then ok (leave s)
        else sized h e s)
    else ok (leave (closed s))

unfoldable pub read_round : Env → Session → Result Next
read_round e s =
    if get_active_size s.socket.in_buffer == 0
    then ok (leave s)
    else (read_at s.socket.in_buffer s.socket.in_buffer.rpos 1 >>= λ bs.
        dispatch e s (find_handler (of_le bs)))

-- `ReadCallback()`, in so many rounds at most; `none` if they do not suffice.
unfoldable pub read_callback : ℕ → Env → Session → Option (Result Session)
read_callback zero e s = none
read_callback (suc fuel) e s = elim (read_round e s) [
  | fault x ↦ some (fault x)
  | ok next ↦ elim next [ leave t ↦ some (ok t) | again t ↦ read_callback fuel e t ]
]
