-- ===== src/Worker/Thread/Exits.antt =====
-- `DatabaseWorker::ThreadRoutine`: how much the thread still does once nothing more is enqueued.
use necroauth.Prelude.{
  ℕ, ◌+◌, ◌*◌, ◌≤◌, ◌<◌, ◌≡◌, ◌≢◌, ◌⊎◌, inl, inr, refl, sym, ap, ◌∙◌, Bool, true, false, List, [],
  ◌∷◌, length, arith, Bool-cases, leb, not, ◌&&◌, ◌||◌, if◌then◌else◌, if-ind,
}
use necroauth.Database.{DbRequest}
use necroauth.Worker.{
  Worker, Phase, at_top, sleeping, executing, exited, pass, wake, finish, pop_front, notify_all,
  stop, enqueue, get_response_queue,
}
use necroauth.Worker.Fifo.{
  System, Reach, Reach-Inv, Step, enqueues, stops, notifies, collects, passes, wakes, finishes,
  booted, next, boot, moved,
}
use necroauth.Worker.Thread.{thread_step, thread_step_in}

-- A bound on the critical sections that the thread takes on, beside two for each request in the queue.
-- While the worker runs, a thread that sleeps and was not notified does nothing.
abbrev cost : Phase → Worker → ℕ
cost exited w = 0
cost at_top w = 1
cost sleeping w = if w.running && not w.notified then 0 else 2
cost (executing r) w = 2

abbrev left_of : Phase × Worker → ℕ
left_of (f, w) = cost f w + 2 * w.exec_queue_size

abbrev pub left_to_do : System → ℕ
left_to_do s = cost s.phase s.worker + 2 * s.worker.exec_queue_size

-- A thread sleeps with a queue only after a notification.
abbrev Rests : Phase × Worker → Type 0
Rests (f, w) = f ≡ sleeping → w.notified ≡ false → w.exec_queue_size ≡ 0

pop_front-Rests : (w : Worker) (rs : List DbRequest) → (pop_front w rs).0 ≢ sleeping
unfolding pop_front
pop_front-Rests w [] e = cc
pop_front-Rests w (r ∷ rs) e = cc

pass-Rests : (w : Worker) → Rests (pass w)
unfolding pass
pass-Rests w e k = ground (arith, pop_front-Rests w w.exec_queue)

wake-Rests : (b : Bool) (w : Worker) → Rests (sleeping, w) → Rests (wake b w)
unfolding wake
wake-Rests b w h =
    if-ind Rests (w.notified || b)
      (λ _.
        if-ind Rests (leb w.exec_queue_size 0 && w.running) (λ t e k. ground arith) (λ _ e k. cc))
      (λ _. h)

finish-Rests : (w : Worker) (r : DbRequest) (threw : Bool) → (finish w r threw).0 ≢ sleeping
unfolding finish
finish-Rests w r threw e = ground arith

pub Step-Rests : {s t : System} → Step s t → Rests (s.phase, s.worker) → Rests (t.phase, t.worker)
unfolding stop notify_all enqueue get_response_queue
Step-Rests {s} (enqueues r) h e k = cc
Step-Rests {s} stops h e k = h e k
Step-Rests {s} notifies h e k = cc
Step-Rests {s} collects h e k = h e k
Step-Rests {s} (passes a) h e k = pass-Rests s.worker e k
Step-Rests {s} (wakes b a) h e k = wake-Rests b s.worker (λ _ k. h a k) e k
Step-Rests {s} (finishes r threw a) h e k = absurd (finish-Rests s.worker r threw e)

Reach-Rests : {s : System} → Reach s → Rests (s.phase, s.worker)
unfolding boot
Reach-Rests booted e k = cc
Reach-Rests (next r st) e k = Step-Rests st (Reach-Rests r) e k

pop_front-cost :
    (w : Worker) (rs : List DbRequest)
    → length rs ≡ w.exec_queue_size
    → leb w.exec_queue_size 0 ≡ false
    → left_of (pop_front w rs) < 1 + 2 * w.exec_queue_size
unfolding pop_front
pop_front-cost w [] e some = ground arith
pop_front-cost w (r ∷ rs) e some = ground arith

-- Before it leaves, the thread sleeps only if the worker runs.
pass-cost :
    (w : Worker)
    → length w.exec_queue ≡ w.exec_queue_size
    → left_of (pass w) < 1 + 2 * w.exec_queue_size
unfolding pass
pass-cost w e =
    if-ind (λ m. left_of m < 1 + 2 * w.exec_queue_size) (not w.running && leb w.exec_queue_size 0)
      (λ _. omega arith)
      (λ stay.
        if-ind (λ m. left_of m < 1 + 2 * w.exec_queue_size) (leb w.exec_queue_size 0)
          (λ nothing. ground arith) (λ some. pop_front-cost w w.exec_queue e some))

-- Asleep, with these queues.
abbrev asleep : Worker → Phase × Worker
asleep w = (sleeping, w)

abbrev Wakes : Worker → Phase × Worker → Type 0
Wakes w m = (m ≡ asleep w) ⊎ (left_of m < left_of (asleep w))

again :
    (w : Worker)
    → (leb w.exec_queue_size 0 && w.running) ≡ true
    → Wakes w (asleep (record w { notified = false }))
again w t = elim (Bool-cases w.notified) [
  | inl n ↦ inr (ground arith)
  | inr n ↦ inl (ap (λ k. asleep (record w { notified = k })) (sym n))
]

wake-cost :
    (b : Bool) (w : Worker) → (w.notified ≡ false → w.exec_queue_size ≡ 0) → Wakes w (wake b w)
unfolding wake
wake-cost b w h =
    if-ind (Wakes w) (w.notified || b)
      (λ _.
        if-ind (Wakes w) (leb w.exec_queue_size 0 && w.running) (λ t. again w t)
          (λ f. inr (ground (arith, h))))
      (λ _. inl refl)

finish-cost :
    (w : Worker) (r : DbRequest) (threw : Bool)
    → left_of (finish w r threw) < 2 + 2 * w.exec_queue_size
unfolding finish
finish-cost w r threw = ground arith

-- A critical section of the thread changes nothing, or there is less left to do.
abbrev Moves : System → System → Type 0
Moves s t = (t ≡ s) ⊎ (left_to_do t < left_to_do s)

thread_step_in-Moves :
    (f : Phase) (threw : Bool) (s : System)
    → s.phase ≡ f
    → length s.worker.exec_queue ≡ s.worker.exec_queue_size
    → Rests (f, s.worker)
    → (thread_step_in f threw s ≡ s)
      ⊎ (left_to_do (thread_step_in f threw s) < left_of (f, s.worker))
unfolding thread_step_in
thread_step_in-Moves at_top threw s p e h = inr (pass-cost s.worker e)
thread_step_in-Moves sleeping threw s p e h = elim (wake-cost threw s.worker (h refl)) [
  | inl same ↦ inl (ap (moved s) same ∙ ap (λ f. record s { phase = f }) (sym p))
  | inr less ↦ inr less
]
thread_step_in-Moves (executing r) threw s p e h = inr (finish-cost s.worker r threw)
thread_step_in-Moves exited threw s p e h = inl refl

pub thread_step-Moves : (threw : Bool) {s : System} → Reach s → Moves s (thread_step threw s)
unfolding thread_step
thread_step-Moves threw {s} r =
    thread_step_in-Moves s.phase threw s refl (sym (Reach-Inv r).sized) (Reach-Rests r)

cost_le : (f : Phase) (w : Worker) → cost f w ≤ 2
cost_le exited w = omega arith
cost_le at_top w = omega arith
cost_le sleeping w = ground arith
cost_le (executing r) w = omega arith

pub left_to_do_le : (s : System) → left_to_do s ≤ 2 + 2 * s.worker.exec_queue_size
left_to_do_le s = omega (arith, cost_le s.phase s.worker)

pub stop-left_to_do :
    (s : System) → left_to_do (record s { worker = stop s.worker }) ≤ 2 + left_to_do s
unfolding stop
stop-left_to_do s = omega (arith, cost_le s.phase (stop s.worker))

off_cost : (f : Phase) (w : Worker) → w.running ≡ false → cost f (notify_all w) ≡ cost f w
unfolding notify_all
off_cost exited w off = refl
off_cost at_top w off = refl
off_cost sleeping w off = rw off refl
off_cost (executing r) w off = refl

pub notify-left_to_do :
    (s : System)
    → s.worker.running ≡ false
    → left_to_do (record s { worker = notify_all s.worker }) ≡ left_to_do s
unfolding notify_all
notify-left_to_do s off = ap (λ c. c + 2 * s.worker.exec_queue_size) (off_cost s.phase s.worker off)

-- Once the worker was stopped, the thread does not fall asleep again; if it sleeps, it was notified.
abbrev pub Woken : System → Type 0
Woken s = s.phase ≡ sleeping → s.worker.notified ≡ true

module _ (s : System) (off : s.worker.running ≡ false) where
  thread_step_in-Woken :
      (f : Phase) (threw : Bool)
      → s.phase ≡ f
      → (f ≡ sleeping → s.worker.notified ≡ true)
      → (thread_step_in f threw s).phase ≢ sleeping
  unfolding thread_step_in pass wake
  thread_step_in-Woken at_top threw p h e =
      ground (arith, off, pop_front-Rests s.worker s.worker.exec_queue)
  thread_step_in-Woken sleeping threw p h e = ground (arith, off, h refl)
  thread_step_in-Woken (executing r) threw p h e = finish-Rests s.worker r threw e
  thread_step_in-Woken exited threw p h e = cc

  thread_step_in-less :
      (f : Phase) (threw : Bool)
      → length s.worker.exec_queue ≡ s.worker.exec_queue_size
      → (f ≡ sleeping → s.worker.notified ≡ true)
      → f ≢ exited
      → left_to_do (thread_step_in f threw s) < left_of (f, s.worker)
  unfolding thread_step_in wake
  thread_step_in-less at_top threw e h k = pass-cost s.worker e
  thread_step_in-less sleeping threw e h k = ground (arith, off, h refl)
  thread_step_in-less (executing r) threw e h k = finish-cost s.worker r threw
  thread_step_in-less exited threw e h k = absurd (k refl)

  pub thread_step-Woken : (threw : Bool) → Woken s → Woken (thread_step threw s)
  unfolding thread_step
  thread_step-Woken threw h e = absurd (thread_step_in-Woken s.phase threw refl h e)

  -- A stopped thread that was notified where it sleeps has less to do after each critical section.
  pub thread_step-less :
      (threw : Bool)
      → Reach s
      → Woken s
      → s.phase ≢ exited
      → left_to_do (thread_step threw s) < left_to_do s
  unfolding thread_step
  thread_step-less threw r h k = thread_step_in-less s.phase threw (sym (Reach-Inv r).sized) h k
