-- ===== src/StaticPool/Tests.antt =====
-- A pool of one fiber: it waits, gets two jobs, executes one, and is shut down.
use boost_job.Common.{
  ℕ, ◌<◌, ◌≡◌, refl, ◌≢◌, none, some, [], ◌++◌, get_elem?, total, ◌+◌, ◌∷◌, arith,
}
use boost_job.Queue.{QueueStatus, opened}
use boost_job.Rendezvous
use boost_job.StaticPool.{
  Pc, top, popping, running, done, Pool, launch, fiber_step, move_fiber, close_pool, receive,
  master_step, join_step, returned, move_master, wake_one, accept, submit_job, request_shutdown,
  is_blocked, fiber_moves, submitted, notified, master_moves, Reach, launched, next,
}
use boost_job.StaticPool.Turns.{steps_left}
use boost_job.StaticPool.Executed.{times, holds, executed, Reach-executed, returned-executed}
use boost_job.StaticPool.Shutdown.{Reach-no_lost_wakeup, closed-steps_left}

abbrev one : 0 < 1
one = omega arith

abbrev waiting_pool : Pool
waiting_pool = move_fiber (move_fiber (launch 1) 0 top) 0 popping

abbrev busy_pool : Pool
busy_pool = submit_job (move_fiber (submit_job waiting_pool 7 (some 0)) 0 popping) 8 none

abbrev closed_pool : Pool
closed_pool = move_master (move_master (request_shutdown busy_pool))

busy : Reach 1 busy_pool
unfolding launch move_fiber fiber_step submit_job accept wake_one total
busy =
    next
      (next
        (next (next (next launched (fiber_moves 0 top refl)) (fiber_moves 0 popping refl))
          (submitted 7 (some 0) refl))
        (fiber_moves 0 popping refl))
      (submitted 8 none refl)

closing : Reach 1 closed_pool
closing = next (next (next busy notified) master_moves) master_moves

-- The pool in numbers.
closed_pool_state :
    (closed_pool.state ≡ QueueStatus.closed) × (get_elem? closed_pool.fibers 0 ≡ some (running 7))
unfolding launch move_fiber fiber_step submit_job accept wake_one request_shutdown move_master
    master_step receive close_pool Rendezvous.wait Rendezvous.notify
closed_pool_state = (refl, refl)

busy_pool_opened : busy_pool.state ≡ opened
unfolding launch move_fiber fiber_step submit_job accept wake_one
busy_pool_opened = refl

busy_pool_jobs : busy_pool.jobs ≢ []
unfolding launch move_fiber fiber_step submit_job accept wake_one
busy_pool_jobs e = absurd cc

Reach-no_lost_wakeup_example :
    (i : ℕ) × (pc : Pc) × (get_elem? busy_pool.fibers i ≡ some pc)
    × (is_blocked pc ≡ 0)
    × (pc ≢ done)
Reach-no_lost_wakeup_example = Reach-no_lost_wakeup one busy busy_pool_opened busy_pool_jobs

closed-steps_left_example :
    (is_blocked (running 7) ≡ 0)
    × (total steps_left (move_fiber closed_pool 0 (running 7)).fibers
        < total steps_left closed_pool.fibers)
closed-steps_left_example =
    closed-steps_left one closing closed_pool_state.0 0 (running 7) closed_pool_state.1
      (λ e. absurd cc)

-- The fiber executes job 7, sees the closed queue and ends, with job 8 left; the master joins it.
abbrev worked_pool : Pool
worked_pool = move_fiber closed_pool 0 (running 7)

abbrev ended_pool : Pool
ended_pool = move_master (move_master (move_fiber worked_pool 0 top))

worked_at :
    (get_elem? worked_pool.fibers 0 ≡ some top)
    × (ended_pool.master ≡ returned)
    × (ended_pool.jobs ≡ 8 ∷ [])
unfolding launch move_fiber fiber_step submit_job accept wake_one request_shutdown move_master
    master_step join_step receive close_pool Rendezvous.wait Rendezvous.notify
worked_at = (refl, refl, refl)

worked : Reach 1 worked_pool
worked = next closing (fiber_moves 0 (running 7) closed_pool_state.1)

ended : Reach 1 ended_pool
ended = next (next (next worked (fiber_moves 0 top worked_at.0)) master_moves) master_moves

executed_lem : executed ended ≡ 7 ∷ []
unfolding executed ended worked closing busy
executed_lem = refl

Reach-executed_example :
    (worked_pool.offered ≡ worked_pool.taken ++ worked_pool.jobs)
    × (times 7 worked_pool.taken ≡ times 7 (executed worked) + total (holds 7) worked_pool.fibers)
Reach-executed_example = Reach-executed one worked 7

returned-executed_example :
    times 8 ended_pool.offered ≡ times 8 (executed ended) + times 8 ended_pool.jobs
returned-executed_example = returned-executed one ended 8 worked_at.1
