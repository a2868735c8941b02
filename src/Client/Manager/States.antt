-- ===== src/Client/Manager/States.antt =====
-- The states that the client's `AuthManager` goes through.
use necroauth.Prelude.{
  ℕ, ◌≡◌, Bool, true, false, ◌||◌, ◌&&◌, leb, ◌==◌, inl, inr, Bool-cases, if◌then◌else◌, List, [],
  Option, Result, ok, >>=-eq-ok, ℤ, pos, negsuc, is_negative, arith, ap, ◌⊎◌,
}
use mathlib.Core.Path.{subst}
use necroauth.AuthCodes.{SocketStatus}
use necroauth.Socket.{Events}
use necroauth.Socket
use necroauth.Client.Session.{Env}
use necroauth.Client.Manager.{
  AuthManager, create_auth_socket, on_disconnect, connect_to_auth_server, Handshake, Report, Waited,
  unable, timeout, events, on_connected_to_auth_server, check_if_auth_connected,
  check_for_incoming_data, network_update, settle,
}

-- A manager is connecting, or connected, or neither, and has something to poll unless it is neither.
pub record IsValid (m : AuthManager) : Type 0 where
  pub exclusive : (m.is_connecting && m.socket_connected) ≡ false
  pub polls : leb 1 m.poll_fds ≡ (m.is_connecting || m.socket_connected)

-- What a failure leaves: a new socket, nothing to poll, and the account as it was.
pub record IsDisconnected (m : AuthManager) : Type 0 where
  pub not_connecting : m.is_connecting ≡ false
  pub not_connected : m.socket_connected ≡ false
  pub no_polls : m.poll_fds ≡ 0
  pub fresh_queue : m.session.socket.out_queue ≡ []
  pub fresh_status : m.session.status ≡ SocketStatus.gather_info

on_disconnect-IsDisconnected :
    (fd : Option Events) (m : AuthManager) → IsDisconnected (on_disconnect fd m)
unfolding on_disconnect create_auth_socket Socket.new
on_disconnect-IsDisconnected fd m = ground arith

IsDisconnected-IsValid : {m : AuthManager} → IsDisconnected m → IsValid m
IsDisconnected-IsValid d = ground arith

connect-IsValid :
    (fd : Option Events) (good : Bool) (m : AuthManager)
    → IsValid m
    → IsValid (connect_to_auth_server fd good m).0
unfolding connect_to_auth_server on_disconnect create_auth_socket
connect-IsValid fd good m h = ground arith

on_connected-IsValid :
    (e : Env) (hs : List Handshake) (m n : AuthManager) (r : ℤ)
    → leb 1 m.poll_fds ≡ true
    → on_connected_to_auth_server e hs m ≡ ok (n, r)
    → IsValid n
unfolding on_connected_to_auth_server
on_connected-IsValid e hs m n r some_polls h = ground arith

check_for_incoming_data-IsValid :
    (fuel : ℕ) (e : Env) (r : Report) (m n : AuthManager) (x : ℤ)
    → IsValid m
    → check_for_incoming_data fuel e r m ≡ ok (n, x)
    → IsValid n
unfolding check_for_incoming_data
check_for_incoming_data-IsValid fuel e r m n x v h = ground arith

check_if_auth_connected-IsValid :
    (e : Env) (r : Report) (m n : AuthManager) (x : ℤ)
    → IsValid m
    → leb 1 m.poll_fds ≡ true
    → check_if_auth_connected e r m ≡ ok (n, x)
    → IsValid n
unfolding check_if_auth_connected
check_if_auth_connected-IsValid e r m n x v some_polls h = grind (arith, on_connected-IsValid)

settle-IsValid :
    (fd : Option Events) (n : AuthManager) (x : ℤ) → IsValid n → IsValid (settle fd (n, x)).0
settle-IsValid fd n (pos x) v = v
settle-IsValid fd n (negsuc x) v = IsDisconnected-IsValid (on_disconnect-IsDisconnected fd n)

if-branch {ℓ} : {A : Type ℓ} (b : Bool) {x y z : A} → (if b then x else y) ≡ z → (x ≡ z) ⊎ (y ≡ z)
if-branch true h = inl h
if-branch false h = inr h

module _ (fuel : ℕ) (e : Env) (fd : Option Events) where
  report-IsValid :
      (r : Report) (m n : AuthManager) (x : ℤ)
      → IsValid m
      → leb 1 m.poll_fds ≡ true
      → (if m.socket_connected
          then check_for_incoming_data fuel e r m
          else check_if_auth_connected e r m)
        ≡ ok (n, x)
      → IsValid n
  report-IsValid r m n x v some_polls h =
      elim (if-branch {A = Result (AuthManager × ℤ)} m.socket_connected h) [
        | inl k ↦ check_for_incoming_data-IsValid fuel e r m n x v k
        | inr k ↦ check_if_auth_connected-IsValid e r m n x v some_polls k
      ]

  -- A turn without an error or a timeout settles what the report leads to.
  turned :
      (r : Report) (m n : AuthManager) (x : ℤ)
      → (m.poll_fds == 0) ≡ false
      → network_update fuel e fd (events r) m ≡ ok (n, x)
      → (y : AuthManager × ℤ) × ((if m.socket_connected
            then check_for_incoming_data fuel e r m
            else check_if_auth_connected e r m)
          ≡ ok y)
        × (settle fd y ≡ (n, x))
  unfolding network_update
  turned r m n x polls h = let (y, k, last) = >>=-eq-ok _ _ (rw polls at h) in (y, k, ground arith)

  network_update-IsValid :
      (w : Waited) (m n : AuthManager) (x : ℤ)
      → IsValid m
      → network_update fuel e fd w m ≡ ok (n, x)
      → IsValid n
  unfolding network_update
  network_update-IsValid unable m n x v h =
      grind (arith, IsDisconnected-IsValid, on_disconnect-IsDisconnected)
  network_update-IsValid timeout m n x v h = ground arith
  network_update-IsValid (events r) m n x v h = elim (Bool-cases (m.poll_fds == 0)) [
    | inl idle ↦ grind (arith)
    | inr polls ↦
        let ((y, z), k, last) = turned r m n x polls h in
        subst IsValid (ap (λ q. q.0) last)
          (settle-IsValid fd y z (report-IsValid r m y z v (ground arith) k))
  ]

  settle-failed :
      (y n : AuthManager) (z x : ℤ)
      → settle fd (y, z) ≡ (n, x)
      → is_negative x ≡ true
      → IsDisconnected n
  settle-failed y n (pos z) x h negative = ground arith
  settle-failed y n (negsuc z) x h negative =
      subst IsDisconnected (ap (λ q. q.0) h) (on_disconnect-IsDisconnected fd y)

  -- A turn that returns an error leaves the manager disconnected, whatever failed: a new socket with
  -- nothing queued, nothing to poll, and both flags cleared.
  pub network_update-failed :
      (w : Waited) (m n : AuthManager) (x : ℤ)
      → network_update fuel e fd w m ≡ ok (n, x)
      → is_negative x ≡ true
      → IsDisconnected n
  unfolding network_update
  network_update-failed unable m n x h negative = grind (arith, on_disconnect-IsDisconnected)
  network_update-failed timeout m n x h negative = ground arith
  network_update-failed (events r) m n x h negative = elim (Bool-cases (m.poll_fds == 0)) [
    | inl idle ↦ ground arith
    | inr polls ↦
        let ((y, z), k, last) = turned r m n x polls h in settle-failed y n z x last negative
  ]

-- What the user's command and the engine's loop do to the manager.
pub data Step : AuthManager → AuthManager → Type 0 where
  command :
      (fd : Option Events) (good : Bool) (m : AuthManager)
      → Step m (connect_to_auth_server fd good m).0
  turn :
      (fuel : ℕ) (e : Env) (fd : Option Events) (w : Waited) {m n : AuthManager} (x : ℤ)
      → network_update fuel e fd w m ≡ ok (n, x)
      → Step m n

-- The managers that steps lead to from one that has just been made by `Init`.
pub data Reach : AuthManager → Type 0 where
  made : {m : AuthManager} → IsDisconnected m → Reach m
  more : {m n : AuthManager} → Reach m → Step m n → Reach n

-- A reachable manager is never connecting and connected at once, and it has a socket to poll exactly
-- when it is one of the two.
pub Reach-IsValid : {m : AuthManager} → Reach m → IsValid m
Reach-IsValid (made d) = IsDisconnected-IsValid d
Reach-IsValid (more r (command fd good m)) = connect-IsValid fd good m (Reach-IsValid r)
Reach-IsValid (more {m} {n} r (turn fuel e fd w x h)) =
    network_update-IsValid fuel e fd w m n x (Reach-IsValid r) h
