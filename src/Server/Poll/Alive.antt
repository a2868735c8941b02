-- ===== src/Server/Poll/Alive.antt =====
-- The server's loop beside the worker's thread: the sessions that the callbacks captured.
use necroauth.Prelude.{
  ℕ, ◌≡◌, inl, inr, sym, Bool, false, List, [], ◌∷◌, Option, ok, if-ind, >>=-eq-ok, leb, not, ◌&&◌,
  ◌||◌,
}
use mathlib.Core.Path.{subst}
use necroauth.Database.{DbRequest}
use necroauth.Worker.{
  Worker, Phase, at_top, sleeping, executing, exited, pass, wake, finish, pop_front,
  get_response_queue, start, idle,
}
use necroauth.Aes.{Random}
use necroauth.Server.Session.{Env}
use necroauth.Server.Poll.{
  Manager, Waited, unable, timeout, events, quiet, broken, arrived, serve, welcome, look, poll,
  Polled,
}
use necroauth.Server.Poll.Answers.{IsAlive, clients-IsAlive, serve-ids, welcome-Has}
use necroauth.Server.Owners.{
  ok-inj, AreOwned, AreOwned-mono, IsAnswerable, IsOwned, ids, Has, All, All-append,
}

-- The requests of the worker belong to sessions that were there before and are there after.
record Goes (m : Manager) (p : Polled) : Type 0 where
  alive : IsAlive p.manager
  stay : (i : ℕ) → Has (ids m.sessions) i → Has (ids p.manager.sessions) i

look-Goes :
    (fuel : ℕ) (e : Env) (w : Waited) (m : Manager) {p : Polled}
    → look fuel e w m ≡ ok p
    → IsAlive m
    → Goes m p
unfolding look
look-Goes fuel e unable m h v = subst (Goes m) (ok-inj h) (record { alive = v; stay = λ i k. k })
look-Goes fuel e timeout m h v = subst (Goes m) (ok-inj h) (record { alive = v; stay = λ i k. k })
look-Goes fuel e (events quiet ys) m h v =
    let (alive, same) = clients-IsAlive fuel e ys m m.sessions h v in
    record { alive = alive; stay = λ i k. subst (λ js. Has js i) (sym same) k }
look-Goes fuel e (events broken ys) m h v =
    subst (Goes m) (ok-inj h) (record { alive = v; stay = λ i k. k })
look-Goes fuel e (events (arrived a) ys) m h v =
    let (ss, k, h1) = >>=-eq-ok (welcome a m.sessions) _ h in
    let kept = welcome-Has a m.sessions k in
    let (alive, same) =
      clients-IsAlive fuel e ys m ss h1
        (AreOwned-mono (Has (ids m.sessions)) (Has (ids ss)) kept m.worker v) in
    record { alive = alive; stay = λ i j. subst (λ js. Has js i) (sym same) (kept i j) }

poll-Goes :
    (fuel : ℕ) (e : Env) (rows : List (Option ℕ)) (w : Waited) (m : Manager) {p : Polled}
    → poll fuel e rows w m ≡ ok p
    → IsAlive m
    → Goes m p
unfolding poll get_response_queue
poll-Goes fuel e rows w m h v =
    let (ss, k, h1) = >>=-eq-ok (serve e m.worker.resp_queue rows m.sessions) _ h in
    let same = serve-ids e m.worker.resp_queue rows m.sessions k in
    let n : Manager = record m { sessions = ss; worker = record m.worker { resp_queue = [] } } in
    let goes = look-Goes fuel e w n h1 (record {
      waiting = subst (λ js. All (IsAnswerable (Has js)) m.worker.exec_queue) (sym same) v.waiting;
      answered = tt;
    }) in
    record { alive = goes.alive; stay = λ i j. goes.stay i (subst (λ js. Has js i) (sym same) j) }

-- The request that the thread has in hand.
abbrev pub InHand : (ℕ → Type 0) → Phase → Type 0
InHand P (executing r) = IsAnswerable P r
InHand P _ = Unit

InHand-mono : (P Q : ℕ → Type 0) (f : Phase) → ((i : ℕ) → P i → Q i) → InHand P f → InHand Q f
InHand-mono P Q at_top more h = tt
InHand-mono P Q sleeping more h = tt
InHand-mono P Q (executing r) more (inl fire) = inl fire
InHand-mono P Q (executing r) more (inr (i, e, p)) = inr (i, e, more i p)
InHand-mono P Q exited more h = tt

module _ (P : ℕ → Type 0) where
  abbrev Holds : Phase × Worker → Type 0
  Holds (f, w) = InHand P f × AreOwned P w

  pop_front-Holds :
      (w : Worker) (rs : List DbRequest)
      → All (IsAnswerable P) rs
      → AreOwned P w
      → Holds (pop_front w rs)
  unfolding pop_front
  pop_front-Holds w [] a o = (tt, o)
  pop_front-Holds w (r ∷ rs) a o = (a.0, record { waiting = a.1; answered = o.answered })

  pass-Holds : (w : Worker) → AreOwned P w → Holds (pass w)
  unfolding pass
  pass-Holds w o =
      if-ind Holds (not w.running && leb w.exec_queue_size 0) (λ leave. (tt, o))
        (λ stay.
          if-ind Holds (leb w.exec_queue_size 0)
            (λ nothing. (tt, record { waiting = o.waiting; answered = o.answered }))
            (λ more. pop_front-Holds w w.exec_queue o.waiting o))

  wake-Holds : (b : Bool) (w : Worker) → AreOwned P w → Holds (wake b w)
  unfolding wake
  wake-Holds b w o =
      if-ind Holds (w.notified || b)
        (λ _.
          if-ind Holds (leb w.exec_queue_size 0 && w.running)
            (λ _. (tt, record { waiting = o.waiting; answered = o.answered })) (λ _. (tt, o)))
        (λ _. (tt, o))

  finish-Holds :
      (w : Worker) (r : DbRequest) (threw : Bool)
      → IsAnswerable P r
      → AreOwned P w
      → Holds (finish w r threw)
  unfolding finish
  finish-Holds w r threw a o =
      if-ind Holds threw (λ _. (tt, o))
        (λ _.
          if-ind Holds r.fire_and_forget (λ _. (tt, o))
            (λ wants. (
              tt,
              record {
                waiting = o.waiting;
                answered = All-append (IsOwned P) w.resp_queue r o.answered (owner a wants);
              },
            )))
    where
      owner : IsAnswerable P r → r.fire_and_forget ≡ false → IsOwned P r
      owner (inl fire) wants = cc
      owner (inr owned) wants = owned

-- The server's manager, and where the worker's thread stands, after any number of turns of `Poll`
-- and of critical sections of the thread. A turn is one step here.
pub data Loop : Manager → Phase → Type 0 where
  begun :
      (random : Random)
      → Loop (record { sessions = []; worker = start idle; random = random }) at_top
  turns :
      {m : Manager} {f : Phase} {p : Polled} (fuel : ℕ) (e : Env) (rows : List (Option ℕ))
      (w : Waited)
      → Loop m f
      → poll fuel e rows w m ≡ ok p
      → Loop p.manager f
  passes :
      {m : Manager} {f : Phase}
      → Loop m f
      → f ≡ at_top
      → Loop (record m { worker = (pass m.worker).1 }) (pass m.worker).0
  wakes :
      {m : Manager} {f : Phase} (spurious : Bool)
      → Loop m f
      → f ≡ sleeping
      → Loop (record m { worker = (wake spurious m.worker).1 }) (wake spurious m.worker).0
  finishes :
      {m : Manager} {f : Phase} (r : DbRequest) (threw : Bool)
      → Loop m f
      → f ≡ executing r
      → Loop (record m { worker = (finish m.worker r threw).1 }) (finish m.worker r threw).0

pub record Alive (m : Manager) (f : Phase) : Type 0 where
  pub manager : IsAlive m
  pub hand : InHand (Has (ids m.sessions)) f

pub Loop-Alive : {m : Manager} {f : Phase} → Loop m f → Alive m f
unfolding start idle
Loop-Alive (begun random) = record { manager = record { waiting = tt; answered = tt }; hand = tt }
Loop-Alive (turns {m} {f} {p} fuel e rows w l h) =
    let v = Loop-Alive l in
    let goes = poll-Goes fuel e rows w m h v.manager in
    record {
      manager = goes.alive;
      hand = InHand-mono (Has (ids m.sessions)) (Has (ids p.manager.sessions)) f goes.stay v.hand;
    }
Loop-Alive (passes {m} l e) =
    let (hand, owned) = pass-Holds (Has (ids m.sessions)) m.worker (Loop-Alive l).manager in
    record { manager = owned; hand = hand }
Loop-Alive (wakes {m} b l e) =
    let (hand, owned) = wake-Holds (Has (ids m.sessions)) b m.worker (Loop-Alive l).manager in
    record { manager = owned; hand = hand }
Loop-Alive (finishes {m} {f} r threw l e) =
    let v = Loop-Alive l in
    let (hand, owned) =
      finish-Holds (Has (ids m.sessions)) m.worker r threw
        (subst (InHand (Has (ids m.sessions))) e v.hand) v.manager in
    record { manager = owned; hand = hand }
