-- ===== src/Server/Main/Shutdown.antt =====
-- `Server::Update` and `Server::Shutdown`: the order in which the loop, the worker's thread and the
-- two sessions with MySQL come to their ends.
use necroauth.Prelude.{◌≡◌, ◌↔◌, refl, sym, Bool, true, ◌++◌}
use mathlib.Core.Path.{subst}
use necroauth.Database.{DbRequest}
use necroauth.Database.Connection.{Connection, opened}
use necroauth.Worker.{Phase, executing, exited}
use necroauth.Worker.Fifo.{System, boot, executed, answered}
use necroauth.Worker.Fifo
use necroauth.Server.Main.{
  Server, Control, polling, closing, stopping, notifying, joining, closing_db, finished, Reach,
}
use necroauth.Server.Main.Stages.{in_loop, Stage, IsStaged, Reach-IsStaged}

-- How the parts of the server stand to each other.
pub record IsOrderly (s : Server) : Type 0 where
  pub loops : (s.is_running ≡ true) ↔ (s.control ≡ polling)
  pub open_session : (r : DbRequest) → s.system.phase ≡ executing r → s.worker_db ≡ opened
  pub done :
      s.control ≡ finished
      → (s.system.phase ≡ exited)
        × (executed s.system.finished ≡ s.system.enqueued)
        × (answered s.system.finished ≡ s.system.delivered ++ s.system.worker.resp_queue)

loops_lem : (k : Control) (b : Bool) → b ≡ in_loop k → (b ≡ true) ↔ (k ≡ polling)
loops_lem polling b e = ((λ h. refl), (λ h. e))
loops_lem closing b e = ((λ h. cc), (λ h. cc))
loops_lem stopping b e = ((λ h. cc), (λ h. cc))
loops_lem notifying b e = ((λ h. cc), (λ h. cc))
loops_lem joining b e = ((λ h. cc), (λ h. cc))
loops_lem closing_db b e = ((λ h. cc), (λ h. cc))
loops_lem finished b e = ((λ h. cc), (λ h. cc))

Stage-open :
    (k : Control) (r : DbRequest) {f : Phase} {c : Connection}
    → Stage k f c
    → f ≡ executing r
    → c ≡ opened
Stage-open polling r h e = h
Stage-open closing r h e = h
Stage-open stopping r h e = h
Stage-open notifying r h e = h
Stage-open joining r h e = h
Stage-open closing_db r h e = h.1
Stage-open finished r h e = cc

-- In every interleaving of the server's two threads: the server is running exactly while the main
-- thread is in the loop of `Update`; the worker's session with MySQL is open whenever the worker
-- executes a request; and once `Shutdown` is over, the worker's thread has left, every request ever
-- enqueued has been executed, in order, and the answers that are due are those delivered and those
-- still in the response queue.
pub Reach-IsOrderly : {s : Server} → Reach s → IsOrderly s
Reach-IsOrderly {s} r = record {
  loops = loops_lem s.control s.is_running v.loop;
  open_session = λ q e. Stage-open s.control q v.stage e;
  done = λ e.
      let (out, _) = subst (λ k. Stage k s.system.phase s.worker_db) e v.stage in
      (out, sym (v.left out).1, (Fifo.Reach-Inv v.system).answers);
}
  where
    v : IsStaged s
    v = Reach-IsStaged r
