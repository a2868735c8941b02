-- ===== src/Server/Main/Stages.antt =====
-- The server's two threads: what holds of the loop, the worker and the sessions with MySQL at each
-- place of the main thread.
use necroauth.Prelude.{
  inl, inr, Bool-cases, ◌≡◌, ◌≢◌, refl, ap, ◌∙◌, Bool, true, false, ◌++◌, ℤ, pos, ok, some, arith,
}
use mathlib.Core.Path.{subst}
use necroauth.Database.Connection.{
  Connection, null, opened, shut, Connect, connected, mysql_error, standard_exception,
  unknown_exception, login_init, is_zero, login_close, connection_init, connection_close, setup,
}
use necroauth.Worker.{Phase, exited, stop, notify_all, enqueue, get_response_queue, idle, start}
use necroauth.Worker.Fifo.{System, boot, executed, answered}
use necroauth.Worker.Fifo
use necroauth.Worker.Thread.{
  thread_step, Left, thread_step-Reach, thread_step-Same, thread_step-Left, thread_step_exited,
}
use necroauth.Server.Main.{
  Server, Control, polling, closing, stopping, notifying, joining, closing_db, finished, Boot, init,
  begin, halt, Step, thread, collects, enqueues, poll_fails, closes_direct, stops, notifies, joins,
  closes_db, Reach, booted, next, init_direct, init_worker, started,
}

abbrev pub in_loop : Control → Bool
in_loop polling = true
in_loop _ = false

-- Before `m_dbworker.Stop()`.
abbrev pub working : Control → Bool
working polling = true
working closing = true
working stopping = true
working _ = false

-- What holds of the thread and of its session with MySQL at each place of the main thread.
abbrev pub Stage : Control → Phase → Connection → Type 0
Stage closing_db f c = (f ≡ exited) × (c ≡ opened)
Stage finished f c = (f ≡ exited) × (c ≢ null)
Stage _ f c = c ≡ opened

pub record IsStaged (s : Server) : Type 0 where
  pub system : Fifo.Reach s.system
  pub left : Left s.system
  pub direct : s.direct ≢ null
  pub loop : s.is_running ≡ in_loop s.control
  pub worker : s.system.worker.running ≡ working s.control
  pub stage : Stage s.control s.system.phase s.worker_db

at_top-ne-exited : Phase.at_top ≢ exited
at_top-ne-exited e = cc

booted-IsStaged :
    (direct db : Connection) → direct ≢ null → db ≡ opened → IsStaged (begin (started direct db))
unfolding begin started boot start idle
booted-IsStaged direct db d e = record {
  system = Fifo.booted;
  left = λ x. absurd (at_top-ne-exited x);
  direct = d;
  loop = refl;
  worker = refl;
  stage = e;
}

init_worker-IsStaged :
    (answer : Connect) (direct : Connection) {s : Server}
    → direct ≢ null
    → init_worker answer direct ≡ (pos 0, some s)
    → IsStaged (begin s)
unfolding init_worker setup login_init connection_init
init_worker-IsStaged connected direct {s} d h =
    subst (λ t. IsStaged (begin t)) (cc) (booted-IsStaged direct opened d refl)
init_worker-IsStaged mysql_error direct d h = cc
init_worker-IsStaged standard_exception direct d h = cc
init_worker-IsStaged unknown_exception direct d h = cc

init_direct_from-IsStaged :
    (answer : Connect) (b : Boot) {s : Server}
    → b.direct ≡ answer
    → init_direct b ≡ (pos 0, some s)
    → IsStaged (begin s)
unfolding init_direct login_init connection_init
init_direct_from-IsStaged connected b e h =
    init_worker-IsStaged b.worker_db opened (λ x. cc) (rw e at h)
init_direct_from-IsStaged mysql_error b e h = cc (rw e at h)
init_direct_from-IsStaged standard_exception b e h = cc (rw e at h)
init_direct_from-IsStaged unknown_exception b e h = cc (rw e at h)

init-IsStaged : (b : Boot) {s : Server} → init b ≡ (pos 0, some s) → IsStaged (begin s)
unfolding init
init-IsStaged b h = elim (Bool-cases (is_zero b.openssl)) [
  | inl good ↦ init_direct_from-IsStaged b.direct b refl (rw good at h)
  | inr bad ↦ cc (rw bad at h)
]

pub close-ne-null :
    (threw : Bool) (c : Connection) {d : Connection} {n : ℤ}
    → login_close threw c ≡ ok (d, n)
    → d ≢ null
unfolding login_close connection_close
close-ne-null threw null h = cc
close-ne-null threw opened h = ground arith
close-ne-null threw shut h = ground arith

thread-Stage :
    (k : Control) (threw : Bool) (s : System) (c : Connection)
    → Stage k s.phase c
    → Stage k (thread_step threw s).phase c
thread-Stage polling threw s c h = h
thread-Stage closing threw s c h = h
thread-Stage stopping threw s c h = h
thread-Stage notifying threw s c h = h
thread-Stage joining threw s c h = h
thread-Stage closing_db threw s c h = (thread_step_exited threw s h.0, h.1)
thread-Stage finished threw s c h = (thread_step_exited threw s h.0, h.1)

collects-IsStaged :
    (s : Server)
    → IsStaged s
    → IsStaged (record s {
      system = record s.system {
        worker = (get_response_queue s.system.worker).1;
        delivered = s.system.delivered ++ (get_response_queue s.system.worker).0;
      };
    })
unfolding get_response_queue
collects-IsStaged s v = record {
  system = Fifo.next v.system Fifo.collects;
  left = v.left;
  direct = v.direct;
  loop = v.loop;
  worker = v.worker;
  stage = v.stage;
}

-- In the loop the thread has not left.
still_running : (s : Server) → s.control ≡ polling → IsStaged s → s.system.phase ≢ exited
still_running s e v x = cc ((v.left x).0, v.worker, ap working e)

Step-IsStaged : {s t : Server} → Step s t → IsStaged s → IsStaged t
unfolding halt stop enqueue notify_all
Step-IsStaged {s} (thread threw) v = record {
  system = thread_step-Reach threw v.system;
  left = thread_step-Left threw v.system v.left;
  direct = v.direct;
  loop = v.loop;
  worker = (thread_step-Same threw s.system).running ∙ v.worker;
  stage = thread-Stage s.control threw s.system s.worker_db v.stage;
}
Step-IsStaged {s} (collects e) v = collects-IsStaged s v
Step-IsStaged {s} (enqueues r e) v = record {
  system = Fifo.next v.system (Fifo.enqueues r);
  left = λ x. absurd (still_running s e v x);
  direct = v.direct;
  loop = v.loop;
  worker = v.worker;
  stage = v.stage;
}
Step-IsStaged {s} (poll_fails e) v = record {
  system = v.system;
  left = v.left;
  direct = v.direct;
  loop = refl;
  worker = v.worker ∙ ap working e;
  stage = subst (λ k. Stage k s.system.phase s.worker_db) e v.stage;
}
Step-IsStaged {s} (closes_direct threw c n e h) v = record {
  system = v.system;
  left = v.left;
  direct = close-ne-null threw s.direct h;
  loop = v.loop ∙ ap in_loop e;
  worker = v.worker ∙ ap working e;
  stage = subst (λ k. Stage k s.system.phase s.worker_db) e v.stage;
}
Step-IsStaged {s} (stops e) v = record {
  system = Fifo.next v.system Fifo.stops;
  left = λ x. (refl, (v.left x).1);
  direct = v.direct;
  loop = v.loop ∙ ap in_loop e;
  worker = refl;
  stage = subst (λ k. Stage k s.system.phase s.worker_db) e v.stage;
}
Step-IsStaged {s} (notifies e) v = record {
  system = Fifo.next v.system Fifo.notifies;
  left = v.left;
  direct = v.direct;
  loop = v.loop ∙ ap in_loop e;
  worker = v.worker ∙ ap working e;
  stage = subst (λ k. Stage k s.system.phase s.worker_db) e v.stage;
}
Step-IsStaged {s} (joins e x) v = record {
  system = v.system;
  left = v.left;
  direct = v.direct;
  loop = v.loop ∙ ap in_loop e;
  worker = v.worker ∙ ap working e;
  stage = (x, subst (λ k. Stage k s.system.phase s.worker_db) e v.stage);
}
Step-IsStaged {s} (closes_db threw c n e h) v = record {
  system = v.system;
  left = v.left;
  direct = v.direct;
  loop = v.loop ∙ ap in_loop e;
  worker = v.worker ∙ ap working e;
  stage = (
    (subst (λ k. Stage k s.system.phase s.worker_db) e v.stage).0,
    close-ne-null threw s.worker_db h,
  );
}

pub Reach-IsStaged : {s : Server} → Reach s → IsStaged s
Reach-IsStaged (booted b h) = init-IsStaged b h
Reach-IsStaged (next r st) = Step-IsStaged st (Reach-IsStaged r)
