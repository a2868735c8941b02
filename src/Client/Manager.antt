-- ===== src/Client/Manager.antt =====
-- NECROClient/Client/Online/AuthManager.h and AuthManager.cpp: the connection of the client, from the
-- command that asks for it to its end. Lines for the console are left out; what the system, the
-- poll and the handshake answer comes from outside.
pub mod States
use necroauth.Prelude.{
  ℕ, suc, ◌+◌, ◌==◌, Bool, true, false, if◌then◌else◌, List, [], ◌∷◌, Option, none, some, Result,
  ok, fault, Fault, ◌>>=◌, ℤ, pos, negsuc, refl,
}
use necroauth.AuthCodes.{SocketStatus}
use necroauth.Socket.{
  Socket, Events, Written, Received, Derived, set_pfd, tls_setup, send, receive, closing,
}
use necroauth.Socket
use necroauth.Client.Session.{AuthData, Session, Env, on_connected}
use necroauth.Client.Session.Read.{read_callback}

-- `AuthManager`: the session holds `authSocket` and `data`. Of `poll_fds` the number is kept; the
-- last of them is the one that the socket points to.
pub record AuthManager : Type 0 where
  pub session : Session
  pub socket_connected : Bool
  pub is_connecting : Bool
  pub poll_fds : ℕ

-- `CreateAuthSocket()`, given what the `m_pfd` of the new socket happens to hold.
pub create_auth_socket : Option Events → AuthManager → AuthManager
create_auth_socket fd m = record m {
  is_connecting = false;
  session = record m.session { socket = Socket.new fd; status = SocketStatus.gather_info };
}

-- `OnDisconnect()`
pub on_disconnect : Option Events → AuthManager → AuthManager
unfolding create_auth_socket
on_disconnect fd m = record (create_auth_socket fd (record m { poll_fds = 0 })) {
  socket_connected = false;
  is_connecting = false;
}

-- `ConnectToAuthServer()`, given whether `Connect` returns 0.
pub connect_to_auth_server : Option Events → Bool → AuthManager → AuthManager × ℤ
connect_to_auth_server fd good m =
    if m.is_connecting
    then (m, pos 0)
    else (if good
        then (
          record m {
            socket_connected = false;
            is_connecting = true;
            poll_fds = m.poll_fds + 1;
            session = record m.session {
              socket = set_pfd m.session.socket (record { pollin = false; pollout = true });
            };
          },
          pos 0,
        )
        else (on_disconnect fd m, negsuc 0))

-- What `SSL_connect` comes to, each time it is called; `unexpected` is an error that
-- `TLSPerformHandshake` has no case for.
pub data Handshake : Type 0 where
  finished again refused unexpected : Handshake

-- `TLSPerformHandshake()`
unfoldable pub tls_perform_handshake : List Handshake → Result Bool
tls_perform_handshake [] = fault Fault.exhausted
tls_perform_handshake (finished ∷ hs) = ok true
tls_perform_handshake (again ∷ hs) = tls_perform_handshake hs
tls_perform_handshake (refused ∷ hs) = ok false
tls_perform_handshake (unexpected ∷ hs) = ok true

-- What the poll reports of the socket (`error` is any of POLLERR, POLLHUP, POLLNVAL), and what is
-- then answered: `SO_ERROR`, if `getsockopt` succeeds, the handshake, and the socket.
pub record Report : Type 0 where
  pub error : Bool
  pub pollin : Bool
  pub pollout : Bool
  pub so_error : Option ℕ
  pub handshakes : List Handshake
  pub to_send : Written
  pub to_receive : Received

-- What `WSAPoll` comes to.
pub data Waited : Type 0 where
  unable : Waited
  timeout : Waited
  events : Report → Waited

abbrev with_session : AuthManager → Session → AuthManager
with_session m s = record m { session = s }

-- `OnConnectedToAuthServer()`
pub on_connected_to_auth_server : Env → List Handshake → AuthManager → Result (AuthManager × ℤ)
on_connected_to_auth_server e hs m = do
  let s = record m.session { socket = tls_setup m.session.socket }
  let n = record m { is_connecting = false; socket_connected = true; session = s }
  good ← tls_perform_handshake hs
  if good then (on_connected e s >>= λ t. ok (with_session n t, pos 0)) else ok (n, negsuc 0)

-- `poll_fds[0].events = POLLIN`: of the socket, if there is no other.
abbrev only_input : AuthManager → AuthManager
only_input m =
    if m.poll_fds == 1
    then with_session m (record m.session {
      socket = set_pfd m.session.socket (record { pollin = true; pollout = false });
    })
    else m

-- `CheckIfAuthConnected()`
pub check_if_auth_connected : Env → Report → AuthManager → Result (AuthManager × ℤ)
check_if_auth_connected e r m =
    if r.error
    then ok (m, negsuc 0)
    else (if r.pollout
        then elim r.so_error [
          | none ↦ ok (m, negsuc 0)
          | some code ↦
              if code == 0
              then on_connected_to_auth_server e r.handshakes (only_input m)
              else ok (m, negsuc 0)
        ]
        else ok (m, pos 0))

-- The session as `Receive` sees it, whose callback has so many rounds.
abbrev returned : Option (Result Session) → Result Session
returned none = fault Fault.exhausted
returned (some r) = r

abbrev pub receiver : ℕ → Env → Derived Session
receiver fuel e = record {
  base = λ s. s.socket;
  with_base = λ s b. record s { socket = b };
  base-with_base = λ s b. refl;
  read_callback = λ s. returned (read_callback fuel e s);
}

-- The two parts of `CheckForIncomingData()`: a negative result ends it with -1.
abbrev failing : ℤ → ℤ
failing (pos n) = pos 0
failing (negsuc n) = negsuc 0

unfoldable pub incoming : ℕ → Env → Report → Session → Result (Session × ℤ)
incoming fuel e r s =
    if r.pollin
    then (receive (receiver fuel e) s r.to_receive >>= λ (t, n). ok (t, failing n))
    else ok (s, pos 0)

abbrev unless_failed : ℕ → Env → Report → Session → ℤ → Result (Session × ℤ)
unless_failed fuel e r s (pos n) = incoming fuel e r s
unless_failed fuel e r s (negsuc n) = ok (s, negsuc 0)

unfoldable pub exchange : ℕ → Env → Report → Session → Result (Session × ℤ)
exchange fuel e r s =
    if r.pollout
    then (send s.socket r.to_send >>= λ (b, n). unless_failed fuel e r (record s { socket = b }) n)
    else incoming fuel e r s

-- `CheckForIncomingData()`
pub check_for_incoming_data : ℕ → Env → Report → AuthManager → Result (AuthManager × ℤ)
check_for_incoming_data fuel e r m =
    if r.error
    then ok (m, negsuc 0)
    else (exchange fuel e r m.session >>= λ (s, n). ok (with_session m s, n))

-- `if (res == -1) { OnDisconnect(); return res; }`
abbrev pub settle : Option Events → AuthManager × ℤ → AuthManager × ℤ
settle fd (m, pos n) = (m, pos 0)
settle fd (m, negsuc n) = (on_disconnect fd m, negsuc n)

-- `NetworkUpdate()`
unfoldable pub network_update :
    ℕ → Env → Option Events → Waited → AuthManager → Result (AuthManager × ℤ)
network_update fuel e fd w m = if m.poll_fds == 0 then ok (m, pos 0) else elim w [
  | unable ↦ ok (on_disconnect fd m, negsuc 0)
  | timeout ↦ ok (m, pos 0)
  | events r ↦
      (if m.socket_connected
        then check_for_incoming_data fuel e r m
        else check_if_auth_connected e r m)
      >>= λ x. ok (settle fd x)
]
