-- ===== src/Server/Poll/Callbacks.antt =====
-- One turn of the server's loop: which requests the sessions enqueue, and whose answers are served.
use necroauth.Prelude.{
  ℕ, suc, ◌≡◌, inl, inr, refl, ◌∙◌, ap, Bool, if-eq, ap₂, List, [], ◌∷◌, Option, none, some, Result,
  ok, >>=-eq-ok, ℤ, is_negative,
}
use mathlib.Core.Path.{subst}
use necroauth.Socket.{
  Socket, Received, got, zero_return, send, receive, receive_ready, on_plain, on_tls, make_ready,
  store_received, is_open, closing,
}
use necroauth.Server.Session.{Session, Env, Focus, with_socket}
use necroauth.Server.Read.{read_callback}
use necroauth.Server.Read.Owners.{read_callback-Keeps}
use necroauth.Server.Poll.{
  Manager, Ready, receiver, returned, client, client_in, client_out, clients, Polled,
}
use necroauth.Server.Owners.{ok-inj, Keeps, Keeps-trans, Keeps-same, AreOwned, ids, All}

module _ (P : ℕ → Type 0) where
  returned-Keeps :
      (fuel : ℕ) (e : Env) (f : Focus) (o : Option (Result Focus)) {g : Focus}
      → read_callback fuel e f ≡ o
      → returned o ≡ ok g
      → Keeps P f g
  returned-Keeps fuel e f none k h = cc
  returned-Keeps fuel e f (some r) k h = read_callback-Keeps P fuel e f (k ∙ ap some h)

  -- The callback behind a change of the socket.
  called-Keeps :
      (fuel : ℕ) (e : Env) (f : Focus) (b : Socket) {g : Focus}
      → returned (read_callback fuel e (with_socket f b)) ≡ ok g
      → Keeps P f g
  called-Keeps fuel e f b {g} h =
      Keeps-trans P f (with_socket f b) g (Keeps-same P refl refl)
        (returned-Keeps fuel e (with_socket f b) _ refl h)

  socket-Keeps : (f : Focus) (b : Socket) → Keeps P f (with_socket f b)
  socket-Keeps f b = Keeps-same P refl refl

  on_plain-Keeps :
      (fuel : ℕ) (e : Env) (f : Focus) (b : Socket) (answer : Received) {r : Focus × ℤ}
      → on_plain (receiver fuel e) f b answer ≡ ok r
      → Keeps P f r.0
  unfolding on_plain receiver
  on_plain-Keeps fuel e f b (got xs) h =
      let (b', _, h1) = >>=-eq-ok (store_received b xs) _ h in
      let (g, k, h2) = >>=-eq-ok (returned (read_callback fuel e (with_socket f b'))) _ h1 in
      subst (λ r. Keeps P f r.0) (ok-inj h2) (called-Keeps fuel e f b' k)
  on_plain-Keeps fuel e f b Received.retry h =
      subst (λ r. Keeps P f r.0) (ok-inj h) (socket-Keeps f b)
  on_plain-Keeps fuel e f b zero_return h =
      let (g, k, h1) = >>=-eq-ok (returned (read_callback fuel e (with_socket f b))) _ h in
      subst (λ r. Keeps P f r.0) (ok-inj h1) (called-Keeps fuel e f b k)
  on_plain-Keeps fuel e f b (Received.failed code) h =
      subst (λ r. Keeps P f r.0) (ok-inj h) (socket-Keeps f (closing b))

  on_tls-Keeps :
      (fuel : ℕ) (e : Env) (f : Focus) (b : Socket) (answer : Received) {r : Focus × ℤ}
      → on_tls (receiver fuel e) f b answer ≡ ok r
      → Keeps P f r.0
  unfolding on_tls receiver
  on_tls-Keeps fuel e f b (got xs) h =
      let (b', _, h1) = >>=-eq-ok (store_received b xs) _ h in
      let (g, k, h2) = >>=-eq-ok (returned (read_callback fuel e (with_socket f b'))) _ h1 in
      subst (λ r. Keeps P f r.0) (ok-inj h2) (called-Keeps fuel e f b' k)
  on_tls-Keeps fuel e f b Received.retry h =
      subst (λ r. Keeps P f r.0) (ok-inj h) (socket-Keeps f b)
  on_tls-Keeps fuel e f b zero_return h =
      subst (λ r. Keeps P f r.0) (ok-inj h) (socket-Keeps f (closing b))
  on_tls-Keeps fuel e f b (Received.failed code) h =
      subst (λ r. Keeps P f r.0) (ok-inj h) (socket-Keeps f (closing b))

  receive_ready-Keeps :
      (fuel : ℕ) (e : Env) (f : Focus) (b : Socket) (answer : Received) {r : Focus × ℤ}
      → receive_ready (receiver fuel e) f b answer ≡ ok r
      → Keeps P f r.0
  unfolding receive_ready
  receive_ready-Keeps fuel e f b answer h = elim (if-eq b.uses_tls h) [
    | inr (_, plain) ↦ on_plain-Keeps fuel e f b answer plain
    | inl (_, tls) ↦ elim (if-eq b.ssl tls) [
      | inl (_, object) ↦ on_tls-Keeps fuel e f b answer object
      | inr (_, gone) ↦ cc
    ]
  ]

  receive-Keeps :
      (fuel : ℕ) (e : Env) (f : Focus) (answer : Received) {r : Focus × ℤ}
      → receive (receiver fuel e) f answer ≡ ok r
      → Keeps P f r.0
  unfolding receive receiver
  receive-Keeps fuel e f answer h = elim (if-eq (is_open f.self.socket) h) [
    | inl (_, opened) ↦
        let (b, _, h1) = >>=-eq-ok (make_ready f.self.socket) _ opened in
        receive_ready-Keeps fuel e f b answer h1
    | inr (_, gone) ↦ subst (λ r. Keeps P f r.0) (ok-inj gone) (Keeps-same P refl refl)
  ]

  client_in-Keeps :
      (fuel : ℕ) (e : Env) (f : Focus) (y : Ready) {r : Focus × Bool}
      → client_in fuel e f y ≡ ok r
      → Keeps P f r.0
  unfolding client_in
  client_in-Keeps fuel e f y h = elim (if-eq y.pollin h) [
    | inl (_, in_event) ↦
        let ((g, n), k, h1) = >>=-eq-ok (receive (receiver fuel e) f y.to_receive) _ in_event in
        subst (λ r. Keeps P f r.0) (ok-inj h1) (receive-Keeps fuel e f y.to_receive k)
    | inr (_, quiet) ↦ subst (λ r. Keeps P f r.0) (ok-inj quiet) (Keeps-same P refl refl)
  ]

  client_out-Keeps :
      (fuel : ℕ) (e : Env) (f : Focus) (y : Ready) {r : Focus × Bool}
      → client_out fuel e f y ≡ ok r
      → Keeps P f r.0
  unfolding client_out
  client_out-Keeps fuel e f y {r} h = elim (if-eq y.pollout h) [
    | inr (_, quiet) ↦ client_in-Keeps fuel e f y quiet
    | inl (_, out_event) ↦
        let ((b, n), _, h1) = >>=-eq-ok (send f.self.socket y.to_send) _ out_event in
        elim (if-eq (is_negative n) h1) [
          | inl (_, bad) ↦ subst (λ r. Keeps P f r.0) (ok-inj bad) (socket-Keeps f b)
          | inr (_, good) ↦
              Keeps-trans P f (with_socket f b) r.0 (socket-Keeps f b)
                (client_in-Keeps fuel e (with_socket f b) y good)
        ]
  ]

  client-Keeps :
      (fuel : ℕ) (e : Env) (f : Focus) (y : Ready) {r : Focus × Bool}
      → client fuel e f y ≡ ok r
      → Keeps P f r.0
  unfolding client
  client-Keeps fuel e f y h = elim (if-eq y.error h) [
    | inl (_, bad) ↦ subst (λ r. Keeps P f r.0) (ok-inj bad) (Keeps-same P refl refl)
    | inr (_, good) ↦ client_out-Keeps fuel e f y good
  ]

  -- The loop over the clients, where the sessions of the list own all requests.
  pub clients-Keeps :
      (fuel : ℕ) (e : Env) (i : ℕ) (ys : List Ready) (m : Manager) (ss : List Session) {p : Polled}
      → clients fuel e i ys m ss ≡ ok p
      → All P (ids ss)
      → AreOwned P m.worker
      → (ids p.manager.sessions ≡ ids ss) × AreOwned P p.manager.worker
  unfolding clients
  clients-Keeps fuel e i ys m [] h a o =
      subst (λ p. (ids p.manager.sessions ≡ []) × AreOwned P p.manager.worker) (ok-inj h) (refl, o)
  clients-Keeps fuel e i [] m (s ∷ ss) h a o =
      subst (λ p. (ids p.manager.sessions ≡ ids (s ∷ ss)) × AreOwned P p.manager.worker) (ok-inj h)
        (refl, o)
  clients-Keeps fuel e i (y ∷ ys) m (s ∷ ss) h a o =
      let f : Focus = record { self = s; worker = m.worker; random = m.random } in
      let ((g, marked), k, h1) = >>=-eq-ok (client fuel e f y) _ h in
      let n : Manager = record m { worker = g.worker; random = g.random } in
      let (q, k2, h2) = >>=-eq-ok (clients fuel e (suc i) ys n ss) _ h1 in
      let kept = client-Keeps fuel e f y k in
      let (same, owned) = clients-Keeps fuel e (suc i) ys n ss k2 a.1 (kept.owned a.0 o) in
      subst (λ p. (ids p.manager.sessions ≡ ids (s ∷ ss)) × AreOwned P p.manager.worker) (ok-inj h2)
        (ap₂ ◌∷◌ kept.this same, owned)
