-- ===== src/Server/Main.antt =====
-- NECROAuth/Server/NECROServer.cpp and main.cpp: start-up, the main loop and shut-down of the
-- server, beside the thread of its database worker. What `Poll` does to the worker is one
-- `GetResponseQueue` and some `Enqueue`, each a step of its own here.
pub mod Stages
pub mod Shutdown
pub mod Ends
use necroauth.Prelude.{
  ◌≡◌, Bool, true, false, if◌then◌else◌, [], ◌∷◌, ◌++◌, ℤ, pos, negsuc, ok, Option, none, some,
}
use necroauth.Database.{DbRequest}
use necroauth.Database.Connection.{
  Connection, null, Connect, login_init, login_close, setup, is_zero,
}
use necroauth.Worker.{enqueue, stop, notify_all, get_response_queue, Phase, exited}
use necroauth.Worker.Fifo.{System, boot}
use necroauth.Worker.Thread.{thread_step}

-- Where the main thread stands: in the loop of `Update`, before each line of `Shutdown`, between the
-- two parts of `Stop`, or at the end of `main`.
pub data Control : Type 0 where
  polling closing stopping notifying joining closing_db finished : Control

-- `Server`, with the system of the worker and its thread.
pub record Server : Type 0 where
  pub is_running : Bool
  pub control : Control
  pub direct : Connection
  pub worker_db : Connection
  pub system : System

-- What the libraries answer during `Init`: `ServerInit`, and the two sessions with MySQL.
pub record Boot : Type 0 where
  pub openssl : ℤ
  pub direct : Connect
  pub worker_db : Connect

-- After the two databases are open: `m_dbworker.Start()` always gives 0.
unfoldable pub started : Connection → Connection → Server
started direct db = record {
  is_running = false;
  control = polling;
  direct = direct;
  worker_db = db;
  system = boot;
}

init_worker : Connect → Connection → ℤ × Option Server
unfolding started
init_worker answer direct =
    let (db, result) = setup answer in
    if is_zero result then (pos 0, some (started direct db)) else (negsuc 2, none)

init_direct : Boot → ℤ × Option Server
unfolding init_worker
init_direct b =
    let (direct, result) = login_init b.direct null in
    if is_zero result then init_worker b.worker_db direct else (negsuc 1, none)

-- `Init()`: the value that it returns, and the server where that is 0.
unfoldable pub init : Boot → ℤ × Option Server
unfolding init_direct
init b = if is_zero b.openssl then init_direct b else (negsuc 0, none)

-- `Start()`
unfoldable pub begin : Server → Server
begin s = record s { is_running = true }

-- `Stop()`
unfoldable pub halt : Server → Server
halt s = record s { is_running = false }

-- One step of either thread, after `Init` and `Start`. A sleeping thread may wake spuriously.
pub data Step (s : Server) : Server → Type 0 where
  thread : (threw : Bool) → Step s (record s { system = thread_step threw s.system })
  collects :
      s.control ≡ polling
      → Step s (record s {
        system = record s.system {
          worker = (get_response_queue s.system.worker).1;
          delivered = s.system.delivered ++ (get_response_queue s.system.worker).0;
        };
      })
  enqueues :
      (r : DbRequest)
      → s.control ≡ polling
      → Step s (record s {
        system = record s.system {
          worker = enqueue s.system.worker r;
          enqueued = s.system.enqueued ++ r ∷ [];
        };
      })
  poll_fails : s.control ≡ polling → Step s (record (halt s) { control = closing })
  closes_direct :
      (threw : Bool) (c : Connection) (n : ℤ)
      → s.control ≡ closing
      → login_close threw s.direct ≡ ok (c, n)
      → Step s (record s { direct = c; control = stopping })
  stops :
      s.control ≡ stopping
      → Step s (record s {
        system = record s.system { worker = stop s.system.worker };
        control = notifying;
      })
  notifies :
      s.control ≡ notifying
      → Step s (record s {
        system = record s.system { worker = notify_all s.system.worker };
        control = joining;
      })
  joins : s.control ≡ joining → s.system.phase ≡ exited → Step s (record s { control = closing_db })
  closes_db :
      (threw : Bool) (c : Connection) (n : ℤ)
      → s.control ≡ closing_db
      → login_close threw s.worker_db ≡ ok (c, n)
      → Step s (record s { worker_db = c; control = finished })

-- `main()`: what can become of the server once `Init` returned 0.
pub data Reach : Server → Type 0 where
  booted : (b : Boot) {s : Server} → init b ≡ (pos 0, some s) → Reach (begin s)
  next : {s t : Server} → Reach s → Step s t → Reach t
