-- ===== src/Worker/Fifo.antt =====
-- `DatabaseWorker` beside its callers, with what has passed through it kept as history: the order
-- in which requests are executed and answered.
use necroauth.Prelude.{
  ℕ, ◌≡◌, ◌≢◌, inl, inr, refl, sym, ap, ap₂, ◌∙◌, Bool, true, false, List, [], ◌∷◌, ◌++◌, length,
  length-append, append_assoc, append-nil, arith, Bool-cases, if◌then◌else◌, leb, not, ◌&&◌, ◌||◌,
}
use necroauth.Database.{DbRequest}
use necroauth.Worker.{
  Worker, Phase, at_top, sleeping, executing, exited, idle, enqueue, stop, notify_all,
  get_response_queue, pass, wake, finish, pop_front, start,
}

-- The queues and the thread, then all requests enqueued so far, those executed with whether they
-- threw, and those handed to the main thread for their callback.
pub record System : Type 0 where
  pub worker : Worker
  pub phase : Phase
  pub enqueued : List DbRequest
  pub finished : List (DbRequest × Bool)
  pub delivered : List DbRequest

-- After `Start()` on a new worker.
unfoldable pub boot : System
boot = record { worker = start idle; phase = at_top; enqueued = []; finished = []; delivered = [] }

-- The thread puts down the lock in this phase, with these queues.
abbrev pub moved : System → Phase × Worker → System
moved s (phase, worker) = record s { phase = phase; worker = worker }

-- One critical section of either thread.
pub data Step (s : System) : System → Type 0 where
  enqueues :
      (r : DbRequest)
      → Step s (record s { worker = enqueue s.worker r; enqueued = s.enqueued ++ r ∷ [] })
  stops : Step s (record s { worker = stop s.worker })
  notifies : Step s (record s { worker = notify_all s.worker })
  collects : Step s (record s {
    worker = (get_response_queue s.worker).1;
    delivered = s.delivered ++ (get_response_queue s.worker).0;
  })
  passes : s.phase ≡ at_top → Step s (moved s (pass s.worker))
  wakes : (spurious : Bool) → s.phase ≡ sleeping → Step s (moved s (wake spurious s.worker))
  finishes :
      (r : DbRequest) (threw : Bool)
      → s.phase ≡ executing r
      → Step s
          (moved (record s { finished = s.finished ++ (r, threw) ∷ [] }) (finish s.worker r threw))

pub data Reach : System → Type 0 where
  booted : Reach boot
  next : {s t : System} → Reach s → Step s t → Reach t

abbrev pub in_flight : Phase → List DbRequest
in_flight (executing r) = r ∷ []
in_flight _ = []

abbrev pub executed : List (DbRequest × Bool) → List DbRequest
executed [] = []
executed ((r, threw) ∷ fs) = r ∷ executed fs

-- The executed requests that did not throw and want their callback.
abbrev pub answered : List (DbRequest × Bool) → List DbRequest
answered [] = []
answered ((r, threw) ∷ fs) = if threw || r.fire_and_forget then answered fs else r ∷ answered fs

pub record Inv (s : System) : Type 0 where
  pub sized : s.worker.exec_queue_size ≡ length s.worker.exec_queue
  pub fifo : s.enqueued ≡ executed s.finished ++ (in_flight s.phase ++ s.worker.exec_queue)
  pub answers : answered s.finished ≡ s.delivered ++ s.worker.resp_queue

executed-append :
    (fs : List (DbRequest × Bool)) (r : DbRequest) (threw : Bool)
    → executed (fs ++ (r, threw) ∷ []) ≡ executed fs ++ r ∷ []
executed-append [] r threw = refl
executed-append ((q, b) ∷ fs) r threw = ap (◌∷◌ q) (executed-append fs r threw)

answered-append :
    (fs : List (DbRequest × Bool)) (r : DbRequest) (threw : Bool)
    → answered (fs ++ (r, threw) ∷ []) ≡ answered fs ++ answered ((r, threw) ∷ [])
answered-append [] r threw = refl
answered-append ((q, b) ∷ fs) r threw = ground (arith, answered-append fs r threw)

boot-Inv : Inv boot
unfolding boot start idle
boot-Inv = record { sized = refl; fifo = refl; answers = refl }

enqueue-Inv :
    (s : System) (r : DbRequest)
    → Inv s
    → Inv (record s { worker = enqueue s.worker r; enqueued = s.enqueued ++ r ∷ [] })
unfolding enqueue notify_all
enqueue-Inv s r v = record {
  sized = omega (arith, length-append s.worker.exec_queue (r ∷ []), v.sized);
  fifo = rw v.fifo (simp append_assoc);
  answers = v.answers;
}

collect-Inv :
    (s : System)
    → Inv s
    → Inv (record s {
      worker = (get_response_queue s.worker).1;
      delivered = s.delivered ++ (get_response_queue s.worker).0;
    })
unfolding get_response_queue
collect-Inv s v = record {
  sized = v.sized;
  fifo = v.fifo;
  answers = v.answers ∙ sym (append-nil (s.delivered ++ s.worker.resp_queue));
}

-- What a move of the thread keeps: the counter, the requests in hand and in the queue, the answers.
record Keeps (hand : List DbRequest) (w : Worker) (m : Phase × Worker) : Type 0 where
  sized : m.1.exec_queue_size ≡ length m.1.exec_queue
  order : in_flight m.0 ++ m.1.exec_queue ≡ hand ++ w.exec_queue
  answers : m.1.resp_queue ≡ w.resp_queue

pop_front-Keeps :
    (w : Worker) (rs : List DbRequest)
    → w.exec_queue ≡ rs
    → w.exec_queue_size ≡ length rs
    → Keeps [] w (pop_front w rs)
unfolding pop_front
pop_front-Keeps w [] e h = record {
  sized = omega (arith, ap {B = ℕ} length e);
  order = refl;
  answers = refl;
}
pop_front-Keeps w (r ∷ rest) e h = record { sized = omega arith; order = sym e; answers = refl }

pass-Keeps : (w : Worker) → w.exec_queue_size ≡ length w.exec_queue → Keeps [] w (pass w)
unfolding pass
pass-Keeps w h = elim (Bool-cases (not w.running && leb w.exec_queue_size 0)) [
  | inl leave ↦ rw leave (record { sized = h; order = refl; answers = refl })
  | inr stay ↦ elim (Bool-cases (leb w.exec_queue_size 0)) [
    | inl none ↦ rw (stay, none) (record { sized = h; order = refl; answers = refl })
    | inr some ↦ rw (stay, some) (pop_front-Keeps w w.exec_queue refl h)
  ]
]

pass-Inv : (s : System) → s.phase ≡ at_top → Inv s → Inv (moved s (pass s.worker))
pass-Inv s e v = record {
  sized = k.sized;
  fifo =
      v.fifo
      ∙ ap (λ p. executed s.finished ++ (in_flight p ++ s.worker.exec_queue)) e
      ∙ ap (λ l. executed s.finished ++ l) (sym k.order);
  answers = v.answers ∙ ap (λ l. s.delivered ++ l) (sym k.answers);
}
  where
    k : Keeps [] s.worker (pass s.worker)
    k = pass-Keeps s.worker v.sized

wake-Inv : (b : Bool) (s : System) → s.phase ≡ sleeping → Inv s → Inv (moved s (wake b s.worker))
unfolding wake
wake-Inv b s e v = ground arith

record Finishes (w : Worker) (r : DbRequest) (threw : Bool) (m : Phase × Worker) : Type 0 where
  counter : m.1.exec_queue_size ≡ w.exec_queue_size
  order : in_flight m.0 ++ m.1.exec_queue ≡ w.exec_queue
  same : m.1.exec_queue ≡ w.exec_queue
  answers : m.1.resp_queue ≡ w.resp_queue ++ answered ((r, threw) ∷ [])

finish-Finishes :
    (w : Worker) (r : DbRequest) (threw : Bool) → Finishes w r threw (finish w r threw)
unfolding finish
finish-Finishes w r true = ground (arith, append-nil w.resp_queue)
finish-Finishes w r false = ground (arith, append-nil w.resp_queue)

finish-Inv :
    (s : System) (r : DbRequest) (threw : Bool)
    → s.phase ≡ executing r
    → Inv s
    → Inv (moved (record s { finished = s.finished ++ (r, threw) ∷ [] }) (finish s.worker r threw))
finish-Inv s r threw e v = record {
  sized = k.counter ∙ v.sized ∙ ap length (sym k.same);
  fifo =
      v.fifo
      ∙ ap (λ p. executed s.finished ++ (in_flight p ++ s.worker.exec_queue)) e
      ∙ sym (append_assoc (executed s.finished) (r ∷ []) s.worker.exec_queue)
      ∙ ap₂ ◌++◌ (sym (executed-append s.finished r threw)) (sym k.order);
  answers =
      answered-append s.finished r threw
      ∙ ap (λ l. l ++ answered ((r, threw) ∷ [])) v.answers
      ∙ append_assoc s.delivered s.worker.resp_queue (answered ((r, threw) ∷ []))
      ∙ ap (◌++◌ s.delivered) (sym k.answers);
}
  where
    k : Finishes s.worker r threw (finish s.worker r threw)
    k = finish-Finishes s.worker r threw

pub Step-Inv : {s t : System} → Step s t → Inv s → Inv t
unfolding stop notify_all
Step-Inv {s} (enqueues r) v = enqueue-Inv s r v
Step-Inv {s} stops v = record { sized = v.sized; fifo = v.fifo; answers = v.answers }
Step-Inv {s} notifies v = record { sized = v.sized; fifo = v.fifo; answers = v.answers }
Step-Inv {s} collects v = collect-Inv s v
Step-Inv {s} (passes e) v = pass-Inv s e v
Step-Inv {s} (wakes b e) v = wake-Inv b s e v
Step-Inv {s} (finishes r threw e) v = finish-Inv s r threw e v

-- In every interleaving of the two threads the counter is the queue's length; the requests
-- enqueued so far are those executed, then the one in execution, then the queue, in this order; and
-- the answers due are those delivered, then the response queue, in the order of execution.
pub Reach-Inv : {s : System} → Reach s → Inv s
Reach-Inv booted = boot-Inv
Reach-Inv (next r st) = Step-Inv st (Reach-Inv r)

pop_front-stays : (w : Worker) (rs : List DbRequest) → (pop_front w rs).0 ≢ exited
unfolding pop_front
pop_front-stays w [] e = cc
pop_front-stays w (r ∷ rest) e = cc

leave-empty :
    (w : Worker)
    → w.exec_queue_size ≡ length w.exec_queue
    → (pass w).0 ≡ exited
    → (w.running ≡ false) × (w.exec_queue_size ≡ 0)
unfolding pass
leave-empty w h e = ground (arith, pop_front-stays w w.exec_queue)

-- In every reachable state, a thread that is about to leave was stopped, and every request enqueued
-- so far has been executed.
pub exit_drained :
    {s : System}
    → Reach s
    → s.phase ≡ at_top
    → (pass s.worker).0 ≡ exited
    → (s.worker.running ≡ false) × (s.enqueued ≡ executed s.finished)
exit_drained {s} r e x =
    let v = Reach-Inv r in
    let (stopped, size) = leave-empty s.worker v.sized x in
    (
      stopped,
      v.fifo
          ∙ ap (λ p. executed s.finished ++ (in_flight p ++ s.worker.exec_queue)) e
          ∙ ap (◌++◌ (executed s.finished))
              (nothing s.worker.exec_queue (omega (arith, v.sized, size)))
          ∙ append-nil (executed s.finished),
    )
  where
    nothing : (rs : List DbRequest) → length rs ≡ 0 → rs ≡ []
    nothing [] e' = refl
    nothing (q ∷ rs) e' = absurd (omega arith)
