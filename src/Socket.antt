-- ===== src/Socket.antt =====
-- shared/Sockets/TCPSocket.h and TCPSocket.cpp. The system and OpenSSL are outside: each call takes
-- what they answer, and a count of the `closesocket` calls stands for the handle's fate.
pub mod Send
pub mod Receive
pub mod Idle
pub mod Transfer
use necroauth.Prelude.{
  ℕ, suc, ◌+◌, Bool, true, false, List, [], ◌∷◌, ◌++◌, length, Option, none, some, not, ◌&&◌, ◌==◌,
  if◌then◌else◌, Result, ok, fault, Fault, ◌>>=◌, ℤ, pos, negsuc, slice, ◌≡◌,
}
use necroauth.NetworkMessage.{
  NetworkMessage, get_active_size, read_completed, write_completed, compact_data,
  enlarge_buffer_if_needed, read_at, store_at,
}
use necroauth.NetworkMessage

-- The `events` of a `pollfd`.
pub record Events : Type 0 where
  pub pollin : Bool
  pub pollout : Bool

-- `m_ssl` is here whether it is not null, and `m_pfd` what it points to.
pub record Socket : Type 0 where
  pub in_buffer : NetworkMessage
  pub out_queue : List NetworkMessage
  pub closed : Bool
  pub uses_tls : Bool
  pub ssl : Bool
  pub pfd : Option Events
  pub closesocket_calls : ℕ

-- Both constructors, once there is a socket. They leave `m_pfd` unset: `fd` is what it held.
unfoldable pub new : Option Events → Socket
unfolding NetworkMessage.new
new fd = record {
  in_buffer = NetworkMessage.new;
  out_queue = [];
  closed = false;
  uses_tls = false;
  ssl = false;
  pfd = fd;
  closesocket_calls = 0;
}

-- `IsOpen()`
unfoldable pub is_open : Socket → Bool
is_open s = not s.closed

abbrev pub is_filled : List NetworkMessage → Bool
is_filled [] = false
is_filled (m ∷ rest) = true

-- `HasPendingData()`
abbrev pub has_pending_data : Socket → Bool
has_pending_data s = is_filled s.out_queue

-- `SetPfd(pollfd* fd)`
abbrev pub set_pfd : Socket → Events → Socket
set_pfd s e = record s { pfd = some e }

-- `if (m_pfd) m_pfd->events = POLLIN | (HasPendingData() ? POLLOUT : 0);`
abbrev pub polled : Bool → Option Events → Option Events
polled pending none = none
polled pending (some e) = some (record { pollin = true; pollout = pending })

unfoldable pub update_events : Socket → Socket
update_events s = record s { pfd = polled (has_pending_data s) s.pfd }

-- `QueuePacket(NetworkMessage&& pckt)`
unfoldable pub queue_packet : Socket → NetworkMessage → Socket
unfolding update_events
queue_packet s m = update_events (record s { out_queue = s.out_queue ++ m ∷ [] })

-- `Close()`: frees the TLS object, then closes the handle, whatever `m_closed` says. The second
-- argument is what `closesocket` returns.
unfoldable pub close : Socket → ℤ → Socket × ℤ
close s result = (
  record s {
    ssl = if s.uses_tls && s.ssl then false else s.ssl;
    closesocket_calls = s.closesocket_calls + 1;
  },
  result,
)

-- `Close()` where the result is not looked at.
abbrev pub closing : Socket → Socket
closing s = (close s (pos 0)).0

-- `Shutdown()`, with what `shutdown` returns.
unfoldable pub shutdown : Socket → ℤ → Socket × ℤ
shutdown s result =
    if s.closed then (s, pos 0) else (record s { closed = true; ssl = false }, result)

-- `ServerTLSSetup` and `ClientTLSSetup`.
unfoldable pub tls_setup : Socket → Socket
tls_setup s = record s { uses_tls = true; ssl = true }

-- What the system or OpenSSL answers to an attempt to write. An error of the system comes with
-- `GetLastError()`, one of OpenSSL with `SSL_get_error`.
pub data Written : Type 0 where
  wrote : ℕ → Written
  retry : Written
  failed : ℕ → Written

-- The end of `Send`: count the bytes, drop a packet that is sent whole.
pub sent : Socket → NetworkMessage → List NetworkMessage → ℕ → Socket
unfolding read_completed update_events
sent s out rest n =
    let out' = read_completed out n in
    update_events (record s { out_queue = if get_active_size out' == 0 then rest else out' ∷ rest })

pub attempt_send : Socket → NetworkMessage → List NetworkMessage → Written → Socket × ℤ
unfolding sent close
attempt_send s out rest (wrote n) = (sent s out rest n, pos n)
attempt_send s out rest retry = (s, pos 0)
attempt_send s out rest (failed code) = (closing s, pos code)

-- `Send()`. Through TLS it needs the TLS object.
send_front : Socket → List NetworkMessage → Written → Result (Socket × ℤ)
unfolding attempt_send
send_front s [] answer = ok (s, pos 0)
send_front s (out ∷ rest) answer =
    if s.uses_tls && not s.ssl
    then fault Fault.null_pointer
    else ok (attempt_send s out rest answer)

unfoldable pub send : Socket → Written → Result (Socket × ℤ)
unfolding send_front
send s answer = send_front s s.out_queue answer

-- What they answer to an attempt to read.
pub data Received : Type 0 where
  got : List ℕ → Received
  retry : Received
  zero_return : Received
  failed : ℕ → Received

-- The virtual methods that `Receive` meets in a session that extends the socket.
pub record Derived (S : Type 0) : Type 0 where
  pub base : S → Socket
  pub with_base : S → Socket → S
  pub base-with_base : (s : S) (b : Socket) → base (with_base s b) ≡ b
  pub read_callback : S → Result S

-- The last part of `Receive`: the bytes stand behind the write position; the callback handles them.
unfoldable pub store_received : Socket → List ℕ → Result Socket
unfolding store_at write_completed
store_received b xs = do
  m ← store_at b.in_buffer b.in_buffer.wpos xs
  ok (record b { in_buffer = write_completed m (length xs) })

-- `m_inBuffer.CompactData(); m_inBuffer.EnlargeBufferIfNeeded();`
unfoldable pub make_ready : Socket → Result Socket
unfolding compact_data enlarge_buffer_if_needed
make_ready b = do
  m ← compact_data b.in_buffer
  ok (record b { in_buffer = enlarge_buffer_if_needed m })

module _ {S : Type 0} (c : Derived S) where
  open c use {base, with_base, read_callback}

  -- Without TLS, an error of `recv` is reported as -1 and there is no orderly end but no bytes.
  unfoldable pub on_plain : S → Socket → Received → Result (S × ℤ)
  on_plain s b (got xs) = do
    b' ← store_received b xs
    s' ← read_callback (with_base s b')
    ok (s', pos (length xs))
  on_plain s b Received.retry = ok (with_base s b, pos 0)
  on_plain s b zero_return = do s' ← read_callback (with_base s b); ok (s', pos 0)
  on_plain s b (Received.failed code) = ok (with_base s (closing b), negsuc 0)

  -- With TLS, an error is reported as the code of `SSL_get_error`.
  unfoldable pub on_tls : S → Socket → Received → Result (S × ℤ)
  on_tls s b (got xs) = do
    b' ← store_received b xs
    s' ← read_callback (with_base s b')
    ok (s', pos (length xs))
  on_tls s b Received.retry = ok (with_base s b, pos 0)
  on_tls s b zero_return = ok (with_base s (closing b), pos 0)
  on_tls s b (Received.failed code) = ok (with_base s (closing b), pos code)

  unfoldable pub receive_ready : S → Socket → Received → Result (S × ℤ)
  receive_ready s b answer =
      if b.uses_tls
      then (if b.ssl then on_tls s b answer else fault Fault.null_pointer)
      else on_plain s b answer

  -- `Receive()`
  unfoldable pub receive : S → Received → Result (S × ℤ)
  unfolding receive_ready on_plain on_tls
  receive s answer =
      if is_open (base s)
      then (make_ready (base s) >>= λ b. receive_ready s b answer)
      else ok (s, pos 0)
