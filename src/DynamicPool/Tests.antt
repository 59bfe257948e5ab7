-- ===== src/DynamicPool/Tests.antt =====
-- Runs of a pool with Min one and Max four.
use boost_job.Common.{
  ℕ, ◌+◌, ◌≤◌, ◌<◌, ◌≡◌, refl, ◌≢◌, true, none, some, [], ◌∷◌, ◌++◌, length, get_elem?, total,
  arith,
}
use boost_job.Queue.{QueueStatus, opened}
use boost_job.StaticPool.{Master}
use boost_job.DynamicPool.{
  Pc, created, top, popping, blocked, holding, running, done, wake_one, WorkerFiber, Pool,
  worker_fiber, worker_fn_, take_turn, launch, move_fiber, accept, submit_job, fiber_moves,
  submitted, Reach, launched, next,
}
use boost_job.DynamicPool.Weights.{is_active, is_there}
use boost_job.DynamicPool.Safety.{Reach-counted, Reach-awake, returned-ended}
use boost_job.StaticPool.Executed.{times}
use boost_job.DynamicPool.Executed.{executed, holds, Reach-executes}
use boost_job.DynamicPool.Orphan.{orphan, joined_first, after, passed, returned-orphan}
use boost_job.DynamicPool.Overshoot.{spawned_unbounded}

abbrev one : 0 < 1
one = omega arith

abbrev two : 1 < 4
two = omega arith

abbrev fiber : WorkerFiber
fiber = worker_fiber opened

abbrev started_pool : Pool
started_pool = move_fiber 1 4 true 0 (launch 1 4) 0 fiber created

abbrev busy_pool : Pool
busy_pool = submit_job started_pool 7 none

busy : Reach 1 4 busy_pool
unfolding launch move_fiber worker_fn_ take_turn worker_fiber submit_job accept total
busy = next (next launched (fiber_moves true 0 0 fiber refl (omega arith))) (submitted 7 none refl)

busy_jobs : busy_pool.jobs ≢ []
unfolding launch move_fiber worker_fn_ take_turn worker_fiber submit_job accept
busy_jobs e = absurd cc

busy_state : busy_pool.state ≡ opened
unfolding launch move_fiber worker_fn_ take_turn worker_fiber submit_job accept
busy_state = refl

-- The fiber takes the job, starts no other fiber, and executes it.
abbrev step_of : Pool → Pc → Pool
step_of p pc = move_fiber 1 4 true 0 p 0 (record fiber { pc = pc }) pc

abbrev worked_pool : Pool
worked_pool = step_of (step_of (step_of (step_of busy_pool top) popping) (holding 7)) (running 7)

worked : Reach 1 4 worked_pool
unfolding launch move_fiber worker_fn_ take_turn worker_fiber submit_job accept wake_one
worked =
    next
      (next
        (next (next busy (fiber_moves true 0 0 (record fiber { pc = top }) refl (omega arith)))
          (fiber_moves true 0 0 (record fiber { pc = popping }) refl (omega arith)))
        (fiber_moves true 0 0 (record fiber { pc = holding 7 }) refl (omega arith)))
      (fiber_moves true 0 0 (record fiber { pc = running 7 }) refl (omega arith))

executed_lem : executed worked ≡ 7 ∷ []
unfolding executed worked busy
executed_lem = refl

Reach-executes_example :
    (worked_pool.offered ≡ worked_pool.taken ++ worked_pool.jobs)
    × (times 7 worked_pool.taken ≡ times 7 (executed worked) + total (holds 7) worked_pool.fibs)
Reach-executes_example = Reach-executes one worked 7

Reach-counted_example :
    (busy_pool.spawned ≡ total is_active busy_pool.fibs)
    × (1 ≤ total is_there busy_pool.fibs)
    × (length busy_pool.fibs ≤ 1 + length busy_pool.taken)
Reach-counted_example = Reach-counted 1 4 one busy busy_state

Reach-awake_example :
    (i : ℕ) × (f : WorkerFiber) × (get_elem? busy_pool.fibs i ≡ some f)
    × (f.pc ≢ blocked)
    × (f.pc ≢ done)
Reach-awake_example = Reach-awake 1 4 one busy busy_state busy_jobs

abbrev ended_pool : Pool
ended_pool = after 4 two (orphan ∷ joined_first ∷ []) 0 Master.returned

returned-ended_example : (ended_pool.state ≡ QueueStatus.closed) × (joined_first.pc ≡ done)
returned-ended_example = returned-ended 1 4 one (passed 4 two) refl 1 joined_first refl refl

returned-orphan_example :
    (p : Pool) × Reach 1 4 p × (p.master ≡ Master.returned) × (get_elem? p.fibs 0 ≡ some orphan)
returned-orphan_example = returned-orphan 4 two

spawned_unbounded_example : (p : Pool) × Reach 1 4 p × (p.state ≡ opened) × (p.spawned ≡ 1 + 9)
spawned_unbounded_example = spawned_unbounded 4 two 9
