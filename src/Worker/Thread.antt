-- ===== src/Worker/Thread.antt =====
-- `DatabaseWorker::ThreadRoutine`: the thread on its own, one critical section after another.
pub mod Exits
use necroauth.Prelude.{
  ℕ, ◌+◌, ◌*◌, ◌≤◌, ◌<◌, ◌≡◌, ◌≢◌, ◌⊎◌, inl, inr, refl, sym, ◌∙◌, Bool, false, List, [], ◌∷◌, ◌++◌,
  length, arith, Bool-cases, leb,
}
use necroauth.Database.{DbRequest}
use necroauth.Worker.{
  Worker, Phase, at_top, sleeping, executing, exited, pass, wake, finish, pop_front,
}
use necroauth.Worker.Fifo.{
  System, passes, wakes, finishes, Reach, next, Reach-Inv, moved, executed, exit_drained,
}

thread_step_in : Phase → Bool → System → System
thread_step_in at_top threw s = moved s (pass s.worker)
thread_step_in sleeping spurious s = moved s (wake spurious s.worker)
thread_step_in (executing r) threw s =
    moved (record s { finished = s.finished ++ (r, threw) ∷ [] }) (finish s.worker r threw)
thread_step_in exited threw s = s

-- What the thread does next; `threw` is whether the request in execution throws, or whether the sleeping
-- thread wakes without a notification.
unfoldable pub thread_step : Bool → System → System
unfolding thread_step_in
thread_step threw s = thread_step_in s.phase threw s

thread_step_in-Reach :
    (f : Phase) (threw : Bool) (s : System)
    → s.phase ≡ f
    → Reach s
    → Reach (thread_step_in f threw s)
unfolding thread_step_in
thread_step_in-Reach at_top threw s e r = next r (passes e)
thread_step_in-Reach sleeping threw s e r = next r (wakes threw e)
thread_step_in-Reach (executing q) threw s e r = next r (finishes q threw e)
thread_step_in-Reach exited threw s e r = r

pub thread_step-Reach : (threw : Bool) {s : System} → Reach s → Reach (thread_step threw s)
unfolding thread_step
thread_step-Reach threw {s} r = thread_step_in-Reach s.phase threw s refl r

-- The thread does not start or stop itself, and enqueues and delivers nothing.
pub record Same (s t : System) : Type 0 where
  pub running : t.worker.running ≡ s.worker.running
  pub enqueued : t.enqueued ≡ s.enqueued
  pub delivered : t.delivered ≡ s.delivered

pop_front-running : (w : Worker) (rs : List DbRequest) → (pop_front w rs).1.running ≡ w.running
unfolding pop_front
pop_front-running w [] = refl
pop_front-running w (r ∷ rs) = refl

pass-running : (w : Worker) → (pass w).1.running ≡ w.running
unfolding pass
pass-running w = ground (arith, pop_front-running w w.exec_queue)

wake-running : (b : Bool) (w : Worker) → (wake b w).1.running ≡ w.running
unfolding wake
wake-running b w = ground arith

finish-running :
    (w : Worker) (r : DbRequest) (threw : Bool) → (finish w r threw).1.running ≡ w.running
unfolding finish
finish-running w r threw = ground arith

thread_step_in-Same : (f : Phase) (threw : Bool) (s : System) → Same s (thread_step_in f threw s)
unfolding thread_step_in
thread_step_in-Same at_top threw s = record {
  running = pass-running s.worker;
  enqueued = refl;
  delivered = refl;
}
thread_step_in-Same sleeping threw s = record {
  running = wake-running threw s.worker;
  enqueued = refl;
  delivered = refl;
}
thread_step_in-Same (executing r) threw s = record {
  running = finish-running s.worker r threw;
  enqueued = refl;
  delivered = refl;
}
thread_step_in-Same exited threw s = record { running = refl; enqueued = refl; delivered = refl }

pub thread_step-Same : (threw : Bool) (s : System) → Same s (thread_step threw s)
unfolding thread_step
thread_step-Same threw s = thread_step_in-Same s.phase threw s

-- A thread that has left was stopped, and everything that was enqueued has been executed.
abbrev pub Left : System → Type 0
Left s = s.phase ≡ exited → (s.worker.running ≡ false) × (s.enqueued ≡ executed s.finished)

wake-stays : (b : Bool) (w : Worker) → (wake b w).0 ≢ exited
unfolding wake
wake-stays b w e = ground arith

finish-stays : (w : Worker) (r : DbRequest) (threw : Bool) → (finish w r threw).0 ≢ exited
unfolding finish
finish-stays w r threw e = ground arith

thread_step_in-Left :
    (f : Phase) (threw : Bool) (s : System)
    → s.phase ≡ f
    → Reach s
    → Left s
    → Left (thread_step_in f threw s)
unfolding thread_step_in
thread_step_in-Left at_top threw s e r h x =
    let (off, done) = exit_drained r e x in (pass-running s.worker ∙ off, done)
thread_step_in-Left sleeping threw s e r h x = absurd (wake-stays threw s.worker x)
thread_step_in-Left (executing q) threw s e r h x = absurd (finish-stays s.worker q threw x)
thread_step_in-Left exited threw s e r h x = h x

pub thread_step-Left : (threw : Bool) {s : System} → Reach s → Left s → Left (thread_step threw s)
unfolding thread_step
thread_step-Left threw {s} r h = thread_step_in-Left s.phase threw s refl r h

exited_stays :
    (f : Phase) (threw : Bool) (s : System)
    → f ≡ exited
    → s.phase ≡ exited
    → (thread_step_in f threw s).phase ≡ exited
unfolding thread_step_in
exited_stays at_top threw s e h = cc
exited_stays sleeping threw s e h = cc
exited_stays (executing r) threw s e h = cc
exited_stays exited threw s e h = h

pub thread_step_exited :
    (threw : Bool) (s : System) → s.phase ≡ exited → (thread_step threw s).phase ≡ exited
unfolding thread_step
thread_step_exited threw s e = exited_stays s.phase threw s e e
