-- ===== src/Worker.antt =====
-- tsl/worker_thread.h and tsl/worker_thread.c: the state word of a worker thread, with one step for each access to it. The
-- compare-and-swap is one step. The work function may return at any time, and
-- does when worker_thread_is_running says no; the thread is started. Creating, starting and joining it are calls to the system.
pub mod Shutdown
mod Tests
use trading_base.Base.{Bool, true, false, if◌then◌else◌, List, [], ◌∷◌}
use trading_base.ResultCode.{AResult, a_ok, a_e_busy}

pub data WorkerThreadState : Type 0 where
  idle : WorkerThreadState
  starting_up : WorkerThreadState
  running : WorkerThreadState
  shutdown_requested : WorkerThreadState
  shutdown : WorkerThreadState

abbrev pub worker_thread_is_running : WorkerThreadState → Bool
worker_thread_is_running idle = false
worker_thread_is_running starting_up = false
worker_thread_is_running running = true
worker_thread_is_running shutdown_requested = false
worker_thread_is_running shutdown = false

-- __worker_thread_function
pub data Worker : Type 0 where
  w_start : Worker  -- before the compare-and-swap
  w_work : Worker  -- in the work function, before its next test
  w_finish : Worker  -- before the store of the last state
  w_exited : Worker

-- The first argument is what the work function does next, in its work: true to return, false to test
-- worker_thread_is_running and to return where it says no.
unfoldable pub worker_step : Bool → WorkerThreadState → Worker → WorkerThreadState × Worker
worker_step b starting_up w_start = (running, w_work)
worker_step b idle w_start = (idle, w_finish)
worker_step b running w_start = (running, w_finish)
worker_step b shutdown_requested w_start = (shutdown_requested, w_finish)
worker_step b shutdown w_start = (shutdown, w_finish)
worker_step true st w_work = (st, w_finish)
worker_step false st w_work = (st, if worker_thread_is_running st then w_work else w_finish)
worker_step b st w_finish = (shutdown, w_exited)
worker_step b st w_exited = (st, w_exited)

-- worker_thread_request_shutdown
pub data Requester : Type 0 where
  r_load : Requester
  r_test : (state : WorkerThreadState) → Requester  -- the state is loaded
  r_done : Requester

unfoldable pub request_step : WorkerThreadState → Requester → WorkerThreadState × Requester
request_step st r_load = (st, r_test st)
request_step st (r_test running) = (shutdown_requested, r_done)
request_step st (r_test starting_up) = (shutdown_requested, r_done)
request_step st (r_test idle) = (st, r_done)
request_step st (r_test shutdown_requested) = (st, r_done)
request_step st (r_test shutdown) = (st, r_done)
request_step st r_done = (st, r_done)

-- The test of worker_thread_delete before it joins the thread.
unfoldable pub delete_test : WorkerThreadState → AResult
delete_test idle = a_e_busy
delete_test starting_up = a_e_busy
delete_test running = a_e_busy
delete_test shutdown_requested = a_ok
delete_test shutdown = a_ok

-- Who makes the next step: the worker, the worker with a work function that returns if it is in there, or the thread
-- that requests.
pub data Turn : Type 0 where
  works : Turn
  returns : Turn
  requests : Turn

abbrev pub goes :
    List Turn → WorkerThreadState × Worker × Requester → WorkerThreadState × Worker × Requester
goes [] s = s
goes (works ∷ more) (st, w, r) = let next = worker_step false st w in goes more (next.0, next.1, r)
goes (returns ∷ more) (st, w, r) = let next = worker_step true st w in goes more (next.0, next.1, r)
goes (requests ∷ more) (st, w, r) = let next = request_step st r in goes more (next.0, w, next.1)
