-- ===== src/Server/Poll/Serve.antt =====
-- `TCPSocketManager::Poll`: serving the answers of the database. The `pollfd` that a session's socket
-- points to is taken to be there.
use necroauth.Prelude.{
  ℕ, ◌≡◌, inl, inr, refl, sym, ap, ◌∙◌, false, ◌==◌, ==_iff, List, [], ◌∷◌, ◌++◌, Option, some, ok,
  fault, ◌>>=◌, Result, Bool-cases,
}
use mathlib.Core.Path.{subst}
use necroauth.Database.{DbRequest}
use necroauth.Worker.{Phase}
use necroauth.Server.Session.{Session, Env, db_callback_gather_info}
use necroauth.Server.Poll.{Manager, call_back, serve_one, serve}
use necroauth.Server.Poll.Alive.{Loop, Loop-Alive}
use necroauth.Server.Poll.Answers.{serve-ids}
use necroauth.Server.Owners.{IsOwned, ids, Has, All}

-- The first session of a list with this identity, and those around it.
record Found (i : ℕ) (ss : List Session) : Type 0 where
  before : List Session
  session : Session
  after : List Session
  split : ss ≡ before ++ session ∷ after
  same : session.this ≡ i
  others : ¬ Has (ids before) i

differs : (s : Session) {i : ℕ} → (s.this == i) ≡ false → ¬ (s.this ≡ i)
differs s {i} other e = cc ((==_iff s.this i).1 e, other)

elsewhere :
    (s : Session) (i : ℕ) (js : List ℕ) → (s.this == i) ≡ false → Has (s.this ∷ js) i → Has js i
elsewhere s i js other (inl e) = absurd (differs s other e)
elsewhere s i js other (inr h) = h

cons-Found :
    (s : Session) {i : ℕ} {ss : List Session}
    → (s.this == i) ≡ false
    → Found i ss
    → Found i (s ∷ ss)
cons-Found s {i} other f = record {
  before = s ∷ f.before;
  session = f.session;
  after = f.after;
  split = ap (◌∷◌ s) f.split;
  same = f.same;
  others = λ h. f.others (elsewhere s i (ids f.before) other h);
}

locate : (i : ℕ) (ss : List Session) → Has (ids ss) i → Found i ss
locate i [] k = absurd k
locate i (s ∷ ss) k = elim (Bool-cases (s.this == i)) [
  | inl here ↦ record {
    before = [];
    session = s;
    after = ss;
    split = refl;
    same = (==_iff s.this i).0 here;
    others = λ h. h;
  }
  | inr other ↦ cons-Found s other (locate i ss (elsewhere s i (ids ss) other k))
]

under :
    (b : Session) (before after : List Session) (r : Result Session)
    → ((r >>= λ t. ok (before ++ t ∷ after)) >>= λ ts. ok (b ∷ ts))
      ≡ (r >>= λ t. ok (b ∷ before ++ t ∷ after))
under b before after (fault x) = refl
under b before after (ok t) = refl

-- A callback does its work on the first session with the identity that it captured.
call_back-first :
    (e : Env) (row : Option ℕ) (i : ℕ) (before after : List Session) (s : Session)
    → ¬ Has (ids before) i
    → s.this ≡ i
    → call_back e row i (before ++ s ∷ after)
      ≡ (db_callback_gather_info e row s >>= λ t. ok (before ++ t ∷ after))
unfolding call_back
call_back-first e row i [] after s alone same = rw ((==_iff s.this i).1 same) refl
call_back-first e row i (b ∷ before) after s alone same = elim (Bool-cases (b.this == i)) [
  | inl here ↦ absurd (alone (inl ((==_iff b.this i).0 here)))
  | inr other ↦
      rw (other, call_back-first e row i before after s (λ h. alone (inr h)) same)
        (under b before after (db_callback_gather_info e row s))
]

-- The answer to this request, with this row, goes to the session that asked: the request's callback
-- captured one of the list, which is the only one that the callback works on.
pub record Answered (e : Env) (r : DbRequest) (row : Option ℕ) (ss : List Session) : Type 0 where
  pub asker : ℕ
  pub captured : r.callback ≡ some asker
  pub before : List Session
  pub session : Session
  pub after : List Session
  pub listed : ss ≡ before ++ session ∷ after
  pub same : session.this ≡ asker
  pub first : ¬ Has (ids before) asker
  pub served :
      serve_one e r row ss
      ≡ (db_callback_gather_info e row session >>= λ t. ok (before ++ t ∷ after))

serve_one-Answered :
    (e : Env) (r : DbRequest) (row : Option ℕ) (ss : List Session)
    → IsOwned (Has (ids ss)) r
    → Answered e r row ss
unfolding serve_one
serve_one-Answered e r row ss (i, set, k) =
    let f = locate i ss k in
    record {
      asker = i;
      captured = set;
      before = f.before;
      session = f.session;
      after = f.after;
      listed = f.split;
      same = f.same;
      first = f.others;
      served =
          rw (set, serve_one)
            (ap (call_back e row i) f.split
              ∙ call_back-first e row i f.before f.after f.session f.others f.same);
    }

All-middle :
    (P : DbRequest → Type 0) (rs later : List DbRequest) (r : DbRequest)
    → All P (rs ++ r ∷ later)
    → P r
All-middle P [] later r a = a.0
All-middle P (q ∷ rs) later r a = All-middle P rs later r a.1

-- After any number of turns of the server's loop and of critical sections of the worker's thread, at
-- each request of the response queue, when those before it have been served, whatever rows all of
-- them hold: its callback is not empty and captured a session that is in the list; serving it is the
-- callback's work on exactly that session, the first with the captured `this`, and the others are
-- left as they are.
pub serve_finds :
    {m : Manager} {f : Phase} (e : Env) (rows : List (Option ℕ)) (row : Option ℕ)
    (earlier later : List DbRequest) (r : DbRequest) {ss : List Session}
    → Loop m f
    → m.worker.resp_queue ≡ earlier ++ r ∷ later
    → serve e earlier rows m.sessions ≡ ok ss
    → Answered e r row ss
serve_finds {m} e rows row earlier later r {ss} l queue done = serve_one-Answered e r row ss (
    subst (λ js. IsOwned (Has js) r) (sym (serve-ids e earlier rows m.sessions done))
      (All-middle (IsOwned (Has (ids m.sessions))) earlier later r
        (subst (All (IsOwned (Has (ids m.sessions)))) queue (Loop-Alive l).manager.answered)))
