-- ===== src/Worker/Shutdown.antt =====
-- A worker thread of tsl/worker_thread.c that is told to shut down, in any interleaving.
use trading_base.Base.{
  ℕ, suc, ◌≡◌, ◌≤◌, ◌-◌, refl, subst, Bool, true, false, List, [], ◌∷◌, ◌++◌, arith,
}
use trading_base.ResultCode.{a_ok}
use trading_base.Worker.{
  WorkerThreadState, idle, starting_up, running, shutdown_requested, shutdown, Worker, w_start,
  w_work, w_finish, w_exited, worker_step, Turn, works, returns, requests, Requester, r_load,
  r_test, r_done, request_step, delete_test, goes,
}

-- The last two states.
abbrev pub IsEnding : WorkerThreadState → Type 0
IsEnding idle = ⊥
IsEnding starting_up = ⊥
IsEnding running = ⊥
IsEnding shutdown_requested = Unit {0}
IsEnding shutdown = Unit {0}

-- What the requester knows.
abbrev pub Knows : WorkerThreadState → Requester → Type 0
Knows st r_load = Unit {0}
Knows st (r_test idle) = ⊥
Knows st (r_test starting_up) = Unit {0}
Knows st (r_test running) = Unit {0}
Knows st (r_test shutdown_requested) = IsEnding st
Knows st (r_test shutdown) = IsEnding st
Knows st r_done = IsEnding st

abbrev pub IsStarted : WorkerThreadState → Type 0
IsStarted idle = ⊥
IsStarted starting_up = Unit {0}
IsStarted running = Unit {0}
IsStarted shutdown_requested = Unit {0}
IsStarted shutdown = Unit {0}

-- The steps that the worker has left once the state is one of the last two.
abbrev pub steps_left : Worker → ℕ
steps_left w_start = 2
steps_left w_work = 2
steps_left w_finish = 1
steps_left w_exited = 0

worker-IsStarted :
    (b : Bool) (st : WorkerThreadState) (w : Worker)
    → IsStarted st
    → IsStarted (worker_step b st w).0
unfolding worker_step
worker-IsStarted b starting_up w_start h = tt
worker-IsStarted b running w_start h = tt
worker-IsStarted b shutdown_requested w_start h = tt
worker-IsStarted b shutdown w_start h = tt
worker-IsStarted b idle w h = absurd h
worker-IsStarted true st w_work h = h
worker-IsStarted false st w_work h = h
worker-IsStarted b st w_finish h = tt
worker-IsStarted b st w_exited h = h

worker-IsEnding :
    (b : Bool) (st : WorkerThreadState) (w : Worker)
    → IsEnding st
    → IsEnding (worker_step b st w).0 × (steps_left (worker_step b st w).1 ≤ steps_left w - 1)
unfolding worker_step
worker-IsEnding b shutdown_requested w_start h = (tt, omega arith)
worker-IsEnding b shutdown w_start h = (tt, omega arith)
worker-IsEnding true shutdown_requested w_work h = (tt, omega arith)
worker-IsEnding true shutdown w_work h = (tt, omega arith)
worker-IsEnding false shutdown_requested w_work h = (tt, omega arith)
worker-IsEnding false shutdown w_work h = (tt, omega arith)
worker-IsEnding b st w_finish h = (tt, omega arith)
worker-IsEnding b st w_exited h = (h, omega arith)
worker-IsEnding b idle w h = absurd h
worker-IsEnding b starting_up w h = absurd h
worker-IsEnding b running w h = absurd h

worker-Knows :
    (b : Bool) (st : WorkerThreadState) (w : Worker) (r : Requester)
    → Knows st r
    → Knows (worker_step b st w).0 r
worker-Knows b st w r_load h = tt
worker-Knows b st w (r_test idle) h = absurd h
worker-Knows b st w (r_test starting_up) h = tt
worker-Knows b st w (r_test running) h = tt
worker-Knows b st w (r_test shutdown_requested) h = (worker-IsEnding b st w h).0
worker-Knows b st w (r_test shutdown) h = (worker-IsEnding b st w h).0
worker-Knows b st w r_done h = (worker-IsEnding b st w h).0

request-Knows :
    (st : WorkerThreadState) (r : Requester)
    → IsStarted st
    → Knows st r
    → IsStarted (request_step st r).0 × Knows (request_step st r).0 (request_step st r).1
unfolding request_step
request-Knows idle r_load on h = absurd on
request-Knows starting_up r_load on h = (tt, tt)
request-Knows running r_load on h = (tt, tt)
request-Knows shutdown_requested r_load on h = (tt, tt)
request-Knows shutdown r_load on h = (tt, tt)
request-Knows st (r_test idle) on h = absurd h
request-Knows st (r_test starting_up) on h = (tt, tt)
request-Knows st (r_test running) on h = (tt, tt)
request-Knows st (r_test shutdown_requested) on h = (on, h)
request-Knows st (r_test shutdown) on h = (on, h)
request-Knows st r_done on h = (on, h)

request-IsEnding :
    (st : WorkerThreadState) (r : Requester) → IsEnding st → IsEnding (request_step st r).0
unfolding request_step
request-IsEnding st r_load h = h
request-IsEnding st (r_test idle) h = h
request-IsEnding st (r_test starting_up) h = tt
request-IsEnding st (r_test running) h = tt
request-IsEnding st (r_test shutdown_requested) h = h
request-IsEnding st (r_test shutdown) h = h
request-IsEnding st r_done h = h

goes-Knows :
    (schedule : List Turn) (st : WorkerThreadState) (w : Worker) (r : Requester)
    → IsStarted st
    → Knows st r
    → Knows (goes schedule (st, w, r)).0 (goes schedule (st, w, r)).2
goes-Knows [] st w r on h = h
goes-Knows (works ∷ more) st w r on h =
    goes-Knows more (worker_step false st w).0 (worker_step false st w).1 r
      (worker-IsStarted false st w on) (worker-Knows false st w r h)
goes-Knows (returns ∷ more) st w r on h =
    goes-Knows more (worker_step true st w).0 (worker_step true st w).1 r
      (worker-IsStarted true st w on) (worker-Knows true st w r h)
goes-Knows (requests ∷ more) st w r on h =
    let next = request-Knows st r on h in
    goes-Knows more (request_step st r).0 w (request_step st r).1 next.0 next.1

-- The steps of the worker in a schedule.
abbrev pub turns : List Turn → ℕ
turns [] = 0
turns (works ∷ more) = suc (turns more)
turns (returns ∷ more) = suc (turns more)
turns (requests ∷ more) = turns more

goes-IsEnding :
    (schedule : List Turn) (st : WorkerThreadState) (w : Worker) (r : Requester)
    → IsEnding st
    → IsEnding (goes schedule (st, w, r)).0
      × (steps_left (goes schedule (st, w, r)).1 ≤ steps_left w - turns schedule)
goes-IsEnding [] st w r h = (h, omega arith)
goes-IsEnding (works ∷ more) st w r h =
    let now = worker-IsEnding false st w h in
    let rest = goes-IsEnding more (worker_step false st w).0 (worker_step false st w).1 r now.0 in
    (rest.0, omega (arith, now.1, rest.1))
goes-IsEnding (returns ∷ more) st w r h =
    let now = worker-IsEnding true st w h in
    let rest = goes-IsEnding more (worker_step true st w).0 (worker_step true st w).1 r now.0 in
    (rest.0, omega (arith, now.1, rest.1))
goes-IsEnding (requests ∷ more) st w r h =
    goes-IsEnding more (request_step st r).0 w (request_step st r).1 (request-IsEnding st r h)

goes-append :
    (before after : List Turn) (s : WorkerThreadState × Worker × Requester)
    → goes (before ++ after) s ≡ goes after (goes before s)
goes-append [] after s = refl
goes-append (works ∷ more) after (st, w, r) =
    goes-append more after ((worker_step false st w).0, (worker_step false st w).1, r)
goes-append (returns ∷ more) after (st, w, r) =
    goes-append more after ((worker_step true st w).0, (worker_step true st w).1, r)
goes-append (requests ∷ more) after (st, w, r) =
    goes-append more after ((request_step st r).0, w, (request_step st r).1)

none_left : (w : Worker) → steps_left w ≤ 0 → w ≡ w_exited
none_left w_start le = absurd (omega (arith, le))
none_left w_work le = absurd (omega (arith, le))
none_left w_finish le = absurd (omega (arith, le))
none_left w_exited le = refl

ending-delete : (st : WorkerThreadState) → IsEnding st → delete_test st ≡ a_ok
unfolding delete_test
ending-delete idle h = absurd h
ending-delete starting_up h = absurd h
ending-delete running h = absurd h
ending-delete shutdown_requested h = refl
ending-delete shutdown h = refl

from_start :
    (schedule : List Turn)
    → (goes schedule (starting_up, w_start, r_load)).2 ≡ r_done
    → IsEnding (goes schedule (starting_up, w_start, r_load)).0
from_start schedule e =
    subst (Knows (goes schedule (starting_up, w_start, r_load)).0) e
      (goes-Knows schedule starting_up w_start r_load tt tt)

two_steps : (w : Worker) → steps_left w ≤ 2
two_steps w_start = omega arith
two_steps w_work = omega arith
two_steps w_finish = omega arith
two_steps w_exited = omega arith

-- In any interleaving of a started worker, whose work function may also return by itself, with a
-- worker_thread_request_shutdown: when the request has returned, whether its load and its store came before the thread ran,
-- while it worked or after it ended, and the worker makes two more steps, it has exited; and from the return of the
-- request on worker_thread_delete does not answer A_E_BUSY.
pub shutdown-exits :
    (before after : List Turn)
    → (goes before (starting_up, w_start, r_load)).2 ≡ r_done
    → 2 ≤ turns after
    → ((goes (before ++ after) (starting_up, w_start, r_load)).1 ≡ w_exited)
      × (delete_test (goes before (starting_up, w_start, r_load)).0 ≡ a_ok)
      × (delete_test (goes (before ++ after) (starting_up, w_start, r_load)).0 ≡ a_ok)
shutdown-exits before after returned enough =
    let s = goes before (starting_up, w_start, r_load) in
    let ending = from_start before returned in
    let later = goes-IsEnding after s.0 s.1 s.2 ending in
    (
      rw (goes-append before after (starting_up, w_start, r_load))
          (none_left (goes after s).1 (omega (arith, later.1, two_steps s.1, enough))),
      ending-delete s.0 ending,
      rw (goes-append before after (starting_up, w_start, r_load))
          (ending-delete (goes after s).0 later.0),
    )
