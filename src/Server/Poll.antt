-- ===== src/Server/Poll.antt =====
-- NECROAuth/Server/Auth/TCPSocketManager.h and TCPSocketManager.cpp: one turn of the server's loop.
-- The `pollfd` of a client is the one that its socket points to; what the poll, the listener, the
-- handshake and the sockets answer comes from outside. The wake-up socket is never set up.
pub mod Keeps
pub mod Callbacks
pub mod Answers
pub mod Alive
pub mod Serve
use necroauth.Prelude.{
  ℕ, suc, ◌+◌, ◌==◌, Bool, true, false, if◌then◌else◌, List, [], ◌∷◌, ◌++◌, Option, none, some,
  Result, ok, fault, Fault, ◌>>=◌, ℤ, pos, negsuc, is_negative, refl,
}
use necroauth.AuthCodes.{SocketStatus}
use necroauth.Aes.{Random}
use necroauth.Database.{DbRequest}
use necroauth.Worker.{Worker, get_response_queue}
use necroauth.Socket.{Socket, Written, Received, Derived, set_pfd, tls_setup, send, receive}
use necroauth.Server.Session.{Session, Env, Focus, with_socket, db_callback_gather_info}
use necroauth.Server.Read.{read_callback}

-- `TCPSocketManager`, with the worker and the random numbers of the server.
pub record Manager : Type 0 where
  pub sessions : List Session
  pub worker : Worker
  pub random : Random

-- What the poll reports of a client (`error` is any of POLLERR, POLLHUP, POLLNVAL), and what its
-- socket then answers.
pub record Ready : Type 0 where
  pub error : Bool
  pub pollin : Bool
  pub pollout : Bool
  pub to_send : Written
  pub to_receive : Received

-- What `SSL_accept` comes to, each time it is called.
pub data Handshake : Type 0 where
  finished again refused : Handshake

-- The listener's `revents`, with the session that `Accept` constructs.
pub data Incoming : Type 0 where
  quiet : Incoming
  broken : Incoming
  arrived : Option (Session × List Handshake) → Incoming

-- What `WSAPoll` comes to.
pub data Waited : Type 0 where
  unable : Waited
  timeout : Waited
  events : Incoming → List Ready → Waited

-- `r.m_callback(r.m_sqlRes)`, with the row that the result holds. An empty function throws; the
-- session that the callback captured must still be there.
pub call_back : Env → Option ℕ → ℕ → List Session → Result (List Session)
call_back e row this [] = fault Fault.null_pointer
call_back e row this (s ∷ ss) =
    let rest = call_back e row this ss in
    if s.this == this
    then (db_callback_gather_info e row s >>= λ t. ok (t ∷ ss))
    else (rest >>= λ ts. ok (s ∷ ts))

unfoldable pub serve_one : Env → DbRequest → Option ℕ → List Session → Result (List Session)
unfolding call_back
serve_one e r row ss = elim r.callback [
  | none ↦ fault Fault.thrown
  | some this ↦ call_back e row this ss
]

-- The loop over the responses, in the order of the queue. A request beyond the rows found none.
unfoldable pub serve : Env → List DbRequest → List (Option ℕ) → List Session → Result (List Session)
serve e [] rows ss = ok ss
serve e (r ∷ rs) [] ss = serve_one e r none ss >>= λ ts. serve e rs [] ts
serve e (r ∷ rs) (row ∷ rows) ss = serve_one e r row ss >>= λ ts. serve e rs rows ts

-- `while ((ret = SSL_accept(...)) != 1)`
unfoldable pub handshake : List Handshake → Result Bool
handshake [] = fault Fault.exhausted
handshake (finished ∷ hs) = ok true
handshake (again ∷ hs) = handshake hs
handshake (refused ∷ hs) = ok false

-- What becomes of an accepted session: TLS before the handshake, then its status and its `pollfd`.
abbrev pub connected : Session → Session
connected s = record s {
  status = SocketStatus.gather_info;
  socket = set_pfd (tls_setup s.socket) (record { pollin = true; pollout = false });
}

unfoldable pub welcome : Option (Session × List Handshake) → List Session → Result (List Session)
unfolding handshake
welcome none ss = ok ss
welcome (some (s, hs)) ss =
    handshake hs >>= λ good. ok (if good then ss ++ connected s ∷ [] else ss)

-- A session as `Receive` sees it, whose callback has so many rounds.
abbrev returned : Option (Result Focus) → Result Focus
returned none = fault Fault.exhausted
returned (some r) = r

unfoldable pub receiver : ℕ → Env → Derived Focus
receiver fuel e = record {
  base = λ f. f.self.socket;
  with_base = with_socket;
  base-with_base = λ f b. refl;
  read_callback = λ f. returned (read_callback fuel e f);
}

-- The body of the loop over the clients, for one without an error: the session afterwards, and
-- whether it is put in `toRemove`.
client_in : ℕ → Env → Focus → Ready → Result (Focus × Bool)
client_in fuel e f r =
    if r.pollin
    then (receive (receiver fuel e) f r.to_receive >>= λ (g, n). ok (g, is_negative n))
    else ok (f, false)

client_out : ℕ → Env → Focus → Ready → Result (Focus × Bool)
unfolding client_in
client_out fuel e f r =
    if r.pollout
    then (send f.self.socket r.to_send >>= λ (b, n).
        if is_negative n then ok (with_socket f b, true) else client_in fuel e (with_socket f b) r)
    else client_in fuel e f r

unfoldable pub client : ℕ → Env → Focus → Ready → Result (Focus × Bool)
unfolding client_out
client fuel e f r = if r.error then ok (f, true) else client_out fuel e f r

-- What a turn leaves: the manager, the indexes in `toRemove`, and the result.
pub record Polled : Type 0 where
  pub manager : Manager
  pub to_remove : List ℕ
  pub code : ℤ

abbrev put_back : ℕ → Bool → Session → Polled → Polled
put_back i marked s p = record p {
  manager = record p.manager { sessions = s ∷ p.manager.sessions };
  to_remove = if marked then i ∷ p.to_remove else p.to_remove;
}

-- The loop over the clients, from index `i`. A session that has just joined has no events.
unfoldable pub clients : ℕ → Env → ℕ → List Ready → Manager → List Session → Result Polled
clients fuel e i rs m [] =
    ok (record { manager = record m { sessions = [] }; to_remove = []; code = pos 0 })
clients fuel e i [] m (s ∷ ss) =
    ok (record { manager = record m { sessions = s ∷ ss }; to_remove = []; code = pos 0 })
clients fuel e i (r ∷ rs) m (s ∷ ss) = do
  (f, marked) ← client fuel e (record { self = s; worker = m.worker; random = m.random }) r
  p ← clients fuel e (suc i) rs (record m { worker = f.worker; random = f.random }) ss
  ok (put_back i marked f.self p)

abbrev stopped : Manager → ℤ → Polled
stopped m n = record { manager = m; to_remove = []; code = n }

-- The rest of `Poll()`, after the responses.
unfoldable pub look : ℕ → Env → Waited → Manager → Result Polled
unfolding welcome clients
look fuel e unable m = ok (stopped m (negsuc 0))
look fuel e timeout m = ok (stopped m (pos 0))
look fuel e (events quiet rs) m = clients fuel e 1 rs m m.sessions
look fuel e (events broken rs) m = ok (stopped m (negsuc 0))
look fuel e (events (arrived a) rs) m = welcome a m.sessions >>= λ ss. clients fuel e 1 rs m ss

-- `Poll()`
unfoldable pub poll : ℕ → Env → List (Option ℕ) → Waited → Manager → Result Polled
unfolding serve look
poll fuel e rows w m =
    let (rs, worker) = get_response_queue m.worker in
    serve e rs rows m.sessions >>= λ ss. look fuel e w (record m { sessions = ss; worker = worker })
