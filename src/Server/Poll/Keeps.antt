-- ===== src/Server/Poll/Keeps.antt =====
-- `TCPSocketManager::Poll`: how the list of sessions changes in a turn.
use necroauth.Prelude.{
  ℕ, suc, ◌+◌, ◌≡◌, Bool, inl, inr, Bool-cases, if◌then◌else◌, ◌==◌, List, [], ◌∷◌, length,
  length-append, Option, none, some, ok, >>=-eq-ok, arith, ap, ◌∙◌,
}
use necroauth.Database.{DbRequest}
use necroauth.Worker.{get_response_queue}
use necroauth.Server.Session.{Session, Env, db_callback_gather_info}
use necroauth.Server.Poll.{
  Manager, Ready, Handshake, finished, again, refused, quiet, broken, arrived, Waited, unable,
  timeout, events, call_back, serve_one, serve, handshake, welcome, client, clients, look, poll,
  Polled,
}

-- The connections that a turn adds: one, when a socket was accepted and the first answer of its
-- handshake that is not "again" finishes it.
pub completes : List Handshake → ℕ
completes [] = 0
completes (finished ∷ hs) = 1
completes (again ∷ hs) = completes hs
completes (refused ∷ hs) = 0

pub joined : Waited → ℕ
joined (events (arrived (some (s, hs))) rs) = completes hs
joined w = 0

call_back-length :
    (e : Env) (row : Option ℕ) (this : ℕ) (ss ts : List Session)
    → call_back e row this ss ≡ ok ts
    → length ts ≡ length ss
unfolding call_back
call_back-length e row this [] ts h = cc
call_back-length e row this (s ∷ ss) ts h = elim (Bool-cases (s.this == this)) [
  | inl here ↦
      let (t, _, last) = >>=-eq-ok (db_callback_gather_info e row s) _ (rw here at h) in
      ground arith
  | inr there ↦
      let (us, k, last) = >>=-eq-ok (call_back e row this ss) _ (rw there at h) in
      let same = call_back-length e row this ss us k in ground arith
]

serve_one-length :
    (e : Env) (r : DbRequest) (row : Option ℕ) (ss ts : List Session)
    → serve_one e r row ss ≡ ok ts
    → length ts ≡ length ss
unfolding serve_one
serve_one-length e r row ss ts h = grind (arith, call_back-length)

pub serve-length :
    (e : Env) (rs : List DbRequest) (rows : List (Option ℕ)) (ss ts : List Session)
    → serve e rs rows ss ≡ ok ts
    → length ts ≡ length ss
unfolding serve
serve-length e [] rows ss ts h = ground arith
serve-length e (r ∷ rs) [] ss ts h =
    let (us, k, last) = >>=-eq-ok (serve_one e r none ss) _ h in
    serve-length e rs [] us ts last ∙ serve_one-length e r none ss us k
serve-length e (r ∷ rs) (row ∷ rows) ss ts h =
    let (us, k, last) = >>=-eq-ok (serve_one e r row ss) _ h in
    serve-length e rs rows us ts last ∙ serve_one-length e r row ss us k

handshake-completes :
    (hs : List Handshake) (good : Bool)
    → handshake hs ≡ ok good
    → completes hs ≡ (if good then 1 else 0)
unfolding handshake completes
handshake-completes [] good h = cc
handshake-completes (finished ∷ hs) good h = ground arith
handshake-completes (again ∷ hs) good h = handshake-completes hs good h
handshake-completes (refused ∷ hs) good h = ground arith

welcome-length :
    (s : Session) (hs : List Handshake) (ss ts : List Session)
    → welcome (some (s, hs)) ss ≡ ok ts
    → length ts ≡ length ss + completes hs
unfolding welcome
welcome-length s hs ss ts h =
    let (good, k, last) = >>=-eq-ok (handshake hs) _ h in
    grind (arith, handshake-completes, length-append {A = Session})

clients-length :
    (fuel : ℕ) (e : Env) (i : ℕ) (rs : List Ready) (m : Manager) (ss : List Session) {p : Polled}
    → clients fuel e i rs m ss ≡ ok p
    → length p.manager.sessions ≡ length ss
unfolding clients
clients-length fuel e i rs m [] h = ground arith
clients-length fuel e i [] m (s ∷ ss) h = ground arith
clients-length fuel e i (r ∷ rs) m (s ∷ ss) h =
    let ((f, marked), _, next) =
      >>=-eq-ok (client fuel e (record { self = s; worker = m.worker; random = m.random }) r) _ h in
    let (q, k, last) =
      >>=-eq-ok (clients fuel e (suc i) rs (record m { worker = f.worker; random = f.random }) ss) _
        next in
    let same =
      clients-length fuel e (suc i) rs (record m { worker = f.worker; random = f.random }) ss k in
    ground arith

look-length :
    (fuel : ℕ) (e : Env) (w : Waited) (m : Manager) (p : Polled)
    → look fuel e w m ≡ ok p
    → length p.manager.sessions ≡ length m.sessions + joined w
unfolding look joined
look-length fuel e unable m p h = ground arith
look-length fuel e timeout m p h = ground arith
look-length fuel e (events quiet rs) m p h = clients-length fuel e 1 rs m m.sessions h ∙ omega arith
look-length fuel e (events broken rs) m p h = ground arith
look-length fuel e (events (arrived none) rs) m p h =
    clients-length fuel e 1 rs m m.sessions h ∙ omega arith
look-length fuel e (events (arrived (some (s, hs))) rs) m p h =
    let (ss, k, last) = >>=-eq-ok (welcome (some (s, hs)) m.sessions) _ h in
    clients-length fuel e 1 rs m ss last ∙ welcome-length s hs m.sessions ss k

-- A turn that does not fail leaves a list of sessions as long as before, whatever is put in
-- `toRemove`, and one longer when a socket was accepted whose handshake finishes.
pub poll-keeps :
    (fuel : ℕ) (e : Env) (rows : List (Option ℕ)) (w : Waited) (m : Manager) (p : Polled)
    → poll fuel e rows w m ≡ ok p
    → length p.manager.sessions ≡ length m.sessions + joined w
unfolding poll get_response_queue
poll-keeps fuel e rows w m p h =
    let (ss, k, last) = >>=-eq-ok (serve e m.worker.resp_queue rows m.sessions) _ h in
    look-length fuel e w _ p last
    ∙ ap (λ n. n + joined w) (serve-length e m.worker.resp_queue rows m.sessions ss k)
