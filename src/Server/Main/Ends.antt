-- ===== src/Server/Main/Ends.antt =====
-- `Server::Shutdown`: it comes to its end, however the two threads take turns.
use necroauth.Prelude.{
  ℕ, suc, ◌+◌, ◌*◌, ◌≤◌, ◌<◌, ◌≡◌, ◌≢◌, ◌⊎◌, inl, inr, refl, ap, ◌∙◌, false, pos, ok, arith,
}
use mathlib.Core.Path.{subst}
use necroauth.Database.Connection.{Connection, null, opened, shut, login_close, connection_close}
use necroauth.Worker.{Phase, at_top, sleeping, executing, exited, notify_all}
use necroauth.Worker.Thread.{thread_step}
use necroauth.Worker.Thread.Exits.{
  left_to_do, left_to_do_le, stop-left_to_do, notify-left_to_do, thread_step-Moves,
  thread_step-less, thread_step-Woken, Woken,
}
use necroauth.Server.Main.{
  Server, Control, polling, closing, stopping, notifying, joining, closing_db, finished, Step,
  thread, collects, enqueues, poll_fails, closes_direct, stops, notifies, joins, closes_db, Reach,
  booted, next, begin, halt,
}
use necroauth.Server.Main.Stages.{Stage, IsStaged, Reach-IsStaged, in_loop, working}

-- Steps of the threads that each change something: so many, in any order.
pub data Run (s : Server) : ℕ → Server → Type 0 where
  here : Run s 0 s
  more : {n : ℕ} {t u : Server} → Run s n t → Step t u → u ≢ t → Run s (suc n) u

-- A step for which nothing has to wake a sleeping thread that was not notified.
pub data Sure (t : Server) : Server → Type 0 where
  worker : Sure t (record t { system = thread_step false t.system })
  main : {u : Server} → Step t u → u.control ≢ t.control → Sure t u

-- In `Join`, a sleeping thread was notified.
joined-Woken : {s : Server} → Reach s → s.control ≡ joining → Woken s.system
unfolding begin halt notify_all
joined-Woken (booted b h) e = cc ((Reach-IsStaged (booted b h)).loop, ap in_loop e)
joined-Woken (next {s} r (thread threw)) e =
    let v = Reach-IsStaged r in
    thread_step-Woken s.system (v.worker ∙ ap working e) threw (joined-Woken r e)
joined-Woken (next r (collects p)) e = cc
joined-Woken (next r (enqueues q p)) e = cc
joined-Woken (next r (poll_fails p)) e = cc
joined-Woken (next r (closes_direct threw c n p h)) e = cc
joined-Woken (next r (stops p)) e = cc
joined-Woken (next r (notifies p)) e = λ a. refl
joined-Woken (next r (joins p x)) e = cc
joined-Woken (next r (closes_db threw c n p h)) e = cc

rank : Control → ℕ
rank polling = 8
rank closing = 7
rank stopping = 6
rank notifying = 3
rank joining = 2
rank closing_db = 1
rank finished = 0

-- A bound on the steps that are left.
abbrev work : Server → ℕ
work s = rank s.control + left_to_do s.system

Step-work :
    {s t : Server} → IsStaged s → s.control ≢ polling → Step s t → (t ≡ s) ⊎ (work t < work s)
unfolding rank
Step-work {s} v off (thread threw) = elim (thread_step-Moves threw v.system) [
  | inl same ↦ inl (ap (λ y. record s { system = y }) same)
  | inr less ↦ inr (omega arith)
]
Step-work v off (collects p) = absurd (off p)
Step-work v off (enqueues q p) = absurd (off p)
Step-work v off (poll_fails p) = absurd (off p)
Step-work v off (closes_direct threw c n p h) = inr (omega (arith, ap rank p))
Step-work {s} v off (stops p) = inr (omega (arith, ap rank p, stop-left_to_do s.system))
Step-work {s} v off (notifies p) =
    inr (omega (arith, ap rank p, notify-left_to_do s.system (v.worker ∙ ap working p)))
Step-work v off (joins p x) = inr (omega (arith, ap rank p))
Step-work v off (closes_db threw c n p h) = inr (omega (arith, ap rank p))

-- The loop is not entered again.
Step-left : {s t : Server} → Step s t → s.control ≢ polling → t.control ≢ polling
unfolding halt
Step-left (thread threw) h e = h e
Step-left (collects p) h e = h e
Step-left (enqueues q p) h e = h e
Step-left (poll_fails p) h e = cc
Step-left (closes_direct threw c n p k) h e = cc
Step-left (stops p) h e = cc
Step-left (notifies p) h e = cc
Step-left (joins p x) h e = cc
Step-left (closes_db threw c n p k) h e = cc

record Ran (s : Server) (n : ℕ) (t : Server) : Type 0 where
  reach : Reach t
  left : t.control ≢ polling
  less : n + work t ≤ work s

Run-Ran : {s t : Server} {n : ℕ} → Reach s → s.control ≢ polling → Run s n t → Ran s n t
Run-Ran r h here = record { reach = r; left = h; less = omega arith }
Run-Ran r h (more run st new) =
    let ran = Run-Ran r h run in
    record {
      reach = next ran.reach st;
      left = Step-left st ran.left;
      less = elim (Step-work (Reach-IsStaged ran.reach) ran.left st) [
        | inl same ↦ absurd (new same)
        | inr fewer ↦ omega (arith, ran.less)
      ];
    }

-- There is a step that changes something and needs no spurious wake-up.
abbrev GoesOn : Server → Type 0
GoesOn t = (u : Server) × Sure t u × (u ≢ t)

close_total : (c : Connection) → c ≢ null → (d : Connection) × (login_close false c ≡ ok (d, pos 0))
unfolding login_close connection_close
close_total null h = absurd (h refl)
close_total opened h = (shut, refl)
close_total shut h = (shut, refl)

to : {t u : Server} → Step t u → u.control ≢ t.control → GoesOn t
to {t} {u} st new = (u, Sure.main st new, λ e. new (ap (λ (s : Server). s.control) e))

Phase-cases : (f : Phase) → (f ≡ exited) ⊎ (f ≢ exited)
Phase-cases at_top = inr (λ e. cc)
Phase-cases sleeping = inr (λ e. cc)
Phase-cases (executing r) = inr (λ e. cc)
Phase-cases exited = inl refl

-- `Join` waits for a thread that goes on, or returns.
join_goes_on : {t : Server} → Reach t → t.control ≡ joining → GoesOn t
join_goes_on {t} r p = elim (Phase-cases t.system.phase) [
  | inl x ↦ to (joins p x) (λ e. cc)
  | inr busy ↦
      let v = Reach-IsStaged r in
      let fewer =
        thread_step-less t.system (v.worker ∙ ap working p) false v.system (joined-Woken r p)
          busy in
      (
        record t { system = thread_step false t.system },
        Sure.worker,
        λ e. absurd (omega (arith, fewer, ap (λ (s : Server). left_to_do s.system) e)),
      )
]

goes_on :
    (k : Control) {t : Server} → t.control ≡ k → Reach t → k ≢ polling → (k ≡ finished) ⊎ GoesOn t
goes_on polling p r h = absurd (h refl)
goes_on closing {t} p r h =
    let (d, k) = close_total t.direct (Reach-IsStaged r).direct in
    inr (to (closes_direct false d (pos 0) p k) (λ e. cc))
goes_on stopping p r h = inr (to (stops p) (λ e. cc))
goes_on notifying p r h = inr (to (notifies p) (λ e. cc))
goes_on joining p r h = inr (join_goes_on r p)
goes_on closing_db {t} p r h =
    let still = (subst (λ k. Stage k t.system.phase t.worker_db) p (Reach-IsStaged r).stage).1 in
    let (d, k) = close_total t.worker_db (λ e. cc (still, e)) in
    inr (to (closes_db false d (pos 0) p k) (λ e. cc))
goes_on finished p r h = inl refl

-- Once `Poll` has returned -1 and the loop is left, in every interleaving of the two threads, whatever
-- the requests and the closing sessions throw: at most twice as many steps change anything as there
-- are requests in the queue, and nine more; and as long as `Shutdown` is not over, there is a further
-- step of the main thread or of the worker that changes something, for which the worker does not
-- have to wake without having been notified.
pub shutdown_ends :
    {s t : Server} {n : ℕ}
    → Reach s
    → s.control ≡ closing
    → Run s n t
    → (n ≤ 9 + 2 * s.system.worker.exec_queue_size) × ((t.control ≡ finished) ⊎ GoesOn t)
unfolding rank
shutdown_ends {s} {t} r e run =
    let ran = Run-Ran r (λ p. cc (e, p)) run in
    (
      omega (arith, ran.less, ap rank e, left_to_do_le s.system),
      goes_on t.control refl ran.reach ran.left,
    )
