-- ===== src/Server/Poll/Answers.antt =====
-- The answers of the database: through any number of turns and of critical sections of the worker's
-- thread, the session whose `this` a callback captured is still in the list.
use necroauth.Prelude.{
  ℕ, ◌≡◌, inl, inr, refl, sym, ◌∙◌, ap, Option-cases, ◌==◌, List, [], ◌∷◌, ◌++◌, Option, none, some,
  ok, if-eq, >>=-eq-ok, arith,
}
use mathlib.Core.Path.{subst}
use necroauth.AuthCodes.{PacketId, packet_id_code, auth_result_code}
use necroauth.Packet
use necroauth.Packet.{put_u8}
use necroauth.NetworkMessage.{of_packet}
use necroauth.Database.{DbRequest}
use necroauth.Server.Session.{
  Session, Env, db_callback_gather_info, reply, admit, gather_info_result,
}
use necroauth.Server.Poll.{
  Manager, Ready, Handshake, call_back, serve_one, serve, handshake, welcome, connected, clients,
  Polled,
}
use necroauth.Server.Poll.Callbacks.{clients-Keeps}
use necroauth.Server.Owners.{ok-inj, AreOwned, ids, Has, All}

pub reply-this :
    (e : Env) (s : Session) (p : Packet.Packet) {t : Session} → reply e s p ≡ ok t → t.this ≡ s.this
unfolding reply
reply-this e s p h =
    let (m, _, h1) = >>=-eq-ok (of_packet e.stale_rpos e.stale_wpos p) _ h in
    subst (λ t. t.this ≡ s.this) (ok-inj h1) refl

admit-this : (s : Session) (row : Option ℕ) → (admit s row).this ≡ s.this
unfolding admit
admit-this s none = refl
admit-this s (some id) = ground arith

pub db_callback-this :
    (e : Env) (row : Option ℕ) (s : Session) {t : Session}
    → db_callback_gather_info e row s ≡ ok t
    → t.this ≡ s.this
unfolding db_callback_gather_info
db_callback-this e row s h =
    let (p, _, h1) =
      >>=-eq-ok (put_u8 (packet_id_code PacketId.login_gather_info) Packet.new) _ h in
    let (q, _, h2) =
      >>=-eq-ok (put_u8 (auth_result_code (gather_info_result s.account row)) p) _ h1 in
    reply-this e (admit s row) q h2 ∙ admit-this s row

pub call_back-ids :
    (e : Env) (row : Option ℕ) (i : ℕ) (ss : List Session) {ts : List Session}
    → call_back e row i ss ≡ ok ts
    → ids ts ≡ ids ss
unfolding call_back
call_back-ids e row i [] h = cc
call_back-ids e row i (s ∷ ss) h = elim (if-eq (s.this == i) h) [
  | inl (_, here) ↦
      let (t, k, h1) = >>=-eq-ok (db_callback_gather_info e row s) _ here in
      subst (λ ts. ids ts ≡ s.this ∷ ids ss) (ok-inj h1)
        (ap (λ j. j ∷ ids ss) (db_callback-this e row s k))
  | inr (_, there) ↦
      let (ts, k, h1) = >>=-eq-ok (call_back e row i ss) _ there in
      subst (λ ts. ids ts ≡ s.this ∷ ids ss) (ok-inj h1)
        (ap (◌∷◌ s.this) (call_back-ids e row i ss k))
]

pub serve_one-ids :
    (e : Env) (r : DbRequest) (row : Option ℕ) (ss : List Session) {ts : List Session}
    → serve_one e r row ss ≡ ok ts
    → ids ts ≡ ids ss
unfolding serve_one
serve_one-ids e r row ss h = elim (Option-cases r.callback) [
  | inl empty ↦ cc (rw (empty, serve_one) at h)
  | inr (i, set) ↦ call_back-ids e row i ss (rw (set, serve_one) at h)
]

pub serve-ids :
    (e : Env) (rs : List DbRequest) (rows : List (Option ℕ)) (ss : List Session) {ts : List Session}
    → serve e rs rows ss ≡ ok ts
    → ids ts ≡ ids ss
unfolding serve
serve-ids e [] rows ss h = sym (ap ids (ok-inj h))
serve-ids e (r ∷ rs) [] ss h =
    let (us, k, last) = >>=-eq-ok (serve_one e r none ss) _ h in
    serve-ids e rs [] us last ∙ serve_one-ids e r none ss k
serve-ids e (r ∷ rs) (row ∷ rows) ss h =
    let (us, k, last) = >>=-eq-ok (serve_one e r row ss) _ h in
    serve-ids e rs rows us last ∙ serve_one-ids e r row ss k

Has-append : (js : List ℕ) (j i : ℕ) → Has js i → Has (js ++ j ∷ []) i
Has-append [] j i h = absurd h
Has-append (k ∷ js) j i (inl e) = inl e
Has-append (k ∷ js) j i (inr h) = inr (Has-append js j i h)

ids-append : (ss : List Session) (s : Session) → ids (ss ++ s ∷ []) ≡ ids ss ++ s.this ∷ []
ids-append [] s = refl
ids-append (t ∷ ss) s = ap (◌∷◌ t.this) (ids-append ss s)

All-Has : (js ks : List ℕ) → ((i : ℕ) → Has js i → Has ks i) → All (Has ks) js
All-Has [] ks h = tt
All-Has (j ∷ js) ks h = (h j (inl refl), All-Has js ks (λ i k. h i (inr k)))

-- Accepting a connection removes no session.
pub welcome-Has :
    (a : Option (Session × List Handshake)) (ss : List Session) {ts : List Session}
    → welcome a ss ≡ ok ts
    → (i : ℕ) → Has (ids ss) i
    → Has (ids ts) i
unfolding welcome
welcome-Has none ss h i k = subst (λ ts. Has (ids ts) i) (ok-inj h) k
welcome-Has (some (s, hs)) ss h i k =
    let (good, _, h1) = >>=-eq-ok (handshake hs) _ h in
    elim (if-eq good (ok-inj h1)) [
      | inl (_, joined) ↦
          subst (λ ts. Has (ids ts) i) joined
            (subst (λ js. Has js i) (sym (ids-append ss (connected s)))
              (Has-append (ids ss) s.this i k))
      | inr (_, left) ↦ subst (λ ts. Has (ids ts) i) left k
    ]

-- The sessions of the manager own the requests of its worker.
abbrev pub IsAlive : Manager → Type 0
IsAlive m = AreOwned (Has (ids m.sessions)) m.worker

pub clients-IsAlive :
    (fuel : ℕ) (e : Env) (ys : List Ready) (m : Manager) (ss : List Session) {p : Polled}
    → clients fuel e 1 ys m ss ≡ ok p
    → AreOwned (Has (ids ss)) m.worker
    → IsAlive p.manager × (ids p.manager.sessions ≡ ids ss)
clients-IsAlive fuel e ys m ss {p} h o =
    let (same, owned) =
      clients-Keeps (Has (ids ss)) fuel e 1 ys m ss h (All-Has (ids ss) (ids ss) (λ i k. k)) o in
    (subst (λ js. AreOwned (Has js) p.manager.worker) (sym same) owned, same)
