-- ===== src/Worker.antt =====
-- database/DB/Threading/DatabaseWorker.h: the thread that executes database requests, and what the
-- main thread does to its queues. Each step is one critical section; the steps of the two threads
-- interleave in any order.
pub mod Fifo
pub mod Thread
use necroauth.Prelude.{
  ℕ, suc, ◌+◌, ◌-◌, Bool, true, false, List, [], ◌∷◌, ◌++◌, Option, none, some, leb, not, ◌&&◌,
  ◌||◌, if◌then◌else◌, ◌≡◌,
}
use necroauth.Database.{DbRequest}

-- `DatabaseWorker`; `notified` is whether `m_execWakeupCond` was notified since the thread last began
-- to wait.
pub record Worker : Type 0 where
  pub running : Bool
  pub exec_queue : List DbRequest
  pub exec_queue_size : ℕ
  pub resp_queue : List DbRequest
  pub notified : Bool

unfoldable pub idle : Worker
idle = record {
  running = false;
  exec_queue = [];
  exec_queue_size = 0;
  resp_queue = [];
  notified = false;
}

-- `m_execWakeupCond.notify_all();`
unfoldable pub notify_all : Worker → Worker
notify_all w = record w { notified = true }

-- `Enqueue(DBRequest&& r)`, which notifies under the lock.
unfoldable pub enqueue : Worker → DbRequest → Worker
unfolding notify_all
enqueue w r =
    notify_all
      (record w { exec_queue = w.exec_queue ++ r ∷ []; exec_queue_size = w.exec_queue_size + 1 })

-- `Stop()`, as far as it holds the lock; `notify_all` comes after that.
unfoldable pub stop : Worker → Worker
stop w = record w { running = false }

-- `Start()`, when no thread is joinable.
unfoldable pub start : Worker → Worker
start w = record w { running = true }

-- `GetResponseQueue()` swaps the queue with an empty one.
unfoldable pub get_response_queue : Worker → List DbRequest × Worker
get_response_queue w = (w.resp_queue, record w { resp_queue = [] })

-- Where the thread of `ThreadRoutine` stands, between two critical sections.
pub data Phase : Type 0 where
  at_top : Phase
  sleeping : Phase
  executing : DbRequest → Phase
  exited : Phase

-- What the thread does in one pass under `m_executionMutex`: leave, sleep, or take a request.
unfoldable pub pop_front : Worker → List DbRequest → Phase × Worker
pop_front w [] = (at_top, w)
pop_front w (r ∷ rest) =
    (executing r, record w { exec_queue = rest; exec_queue_size = w.exec_queue_size - 1 })

unfoldable pub pass : Worker → Phase × Worker
unfolding pop_front
pass w =
    if not w.running && leb w.exec_queue_size 0
    then (exited, w)
    else (if leb w.exec_queue_size 0
        then (sleeping, record w { notified = false })
        else pop_front w w.exec_queue)

-- `while (m_execQueueSize <= 0 && m_running) m_execWakeupCond.wait(lock);`, whose `wait` returns after
-- a notification, or spuriously.
unfoldable pub wake : Bool → Worker → Phase × Worker
wake spurious w =
    if w.notified || spurious
    then (if leb w.exec_queue_size 0 && w.running
        then (sleeping, record w { notified = false })
        else (at_top, w))
    else (sleeping, w)

-- The end of the `try` block: a request that threw is dropped, and one that wants its callback goes
-- to the response queue.
unfoldable pub finish : Worker → DbRequest → Bool → Phase × Worker
finish w r threw =
    if threw
    then (at_top, w)
    else (if r.fire_and_forget
        then (at_top, w)
        else (at_top, record w { resp_queue = w.resp_queue ++ r ∷ [] }))
