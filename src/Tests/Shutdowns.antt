-- ===== src/Tests/Shutdowns.antt =====
-- The server's main loop and its end.
use necroauth.Prelude.{◌≡◌, ◌≢◌, ◌≤◌, ◌+◌, ◌*◌, ◌⊎◌, ap, refl, false, [], pos, some}
use necroauth.Database.{Statement, DbRequest, request}
use necroauth.Database.Connection.{
  connected, opened, shut, login_close, connection_close, login_init, connection_init, setup,
}
use necroauth.Server.Main.{
  Server, Boot, init, started, begin, halt, Control, Reach, booted, next, enqueues, poll_fails,
  closes_direct, stops,
}
use necroauth.Server.Main.Shutdown.{IsOrderly, Reach-IsOrderly}
use necroauth.Server.Main.Ends.{Run, here, more, Sure, shutdown_ends}

abbrev all_good : Boot
all_good = record { openssl = pos 0; direct = connected; worker_db = connected }

all_good_starts : init all_good ≡ (pos 0, some (started opened opened))
unfolding init setup login_init connection_init
all_good_starts = refl

abbrev delete_sessions : DbRequest
delete_sessions = request false (record { query = Statement.del_prev_sessions; bound = [] })

-- A request is queued, and the poll fails.
stopping_Reach : (s : Server) × Reach s × (s.control ≡ Control.closing)
unfolding begin started
stopping_Reach = (
  _,
  next (next (booted all_good all_good_starts) (enqueues delete_sessions refl)) (poll_fails refl),
  refl,
)

Reach-IsOrderly_example : IsOrderly stopping_Reach.0
Reach-IsOrderly_example = Reach-IsOrderly stopping_Reach.1

-- Both sessions are open, and the first one is closed; then the worker is stopped.
stopped : (t : Server) × Run stopping_Reach.0 2 t
unfolding stopping_Reach begin started login_close connection_close halt
stopped = (
  _,
  more
      (more here (closes_direct false shut (pos 0) refl refl)
        (λ e. cc (ap (λ (s : Server). s.control) e)))
      (stops refl) (λ e. cc (ap (λ (s : Server). s.control) e)),
)

shutdown_ends_example :
    (2 ≤ 9 + 2 * stopping_Reach.0.system.worker.exec_queue_size)
    × ((stopped.0.control ≡ Control.finished) ⊎ ((u : Server) × Sure stopped.0 u × (u ≢ stopped.0)))
shutdown_ends_example = shutdown_ends stopping_Reach.1 stopping_Reach.2 stopped.1
