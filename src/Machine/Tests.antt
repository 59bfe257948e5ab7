-- ===== src/Machine/Tests.antt =====
-- A scheduler with one worker thread of one fiber, from its start to its end.
use boost_job.Common.{◌≡◌, refl, [], ◌∷◌, ◌<◌, arith}
use boost_job.Topology.{blank}
use boost_job.Scheduler.{TopologyMap}
use boost_job.StaticPool.{
  Pool, top, launch, move_fiber, move_master, request_shutdown, close_pool, fiber_goes, master_goes,
  fiber_step, join_step,
}
use boost_job.Machine.{
  Thread, ended, Machine, started_machine, Reach, started, next, works, calls, notifies, joins,
  leaves, Run,
}
use boost_job.Machine.Shutdown.{shutdown_ends, ended-ThreadEnded, ThreadEnded}

abbrev one : 0 < 1
one = omega arith

abbrev topology : TopologyMap
topology = (3, blank) ∷ []

shutdown_ends_example : (l : Machine) × Run (started_machine 1 topology) l × (l.caller ≡ ended)
shutdown_ends_example = shutdown_ends one (started_machine 1 topology) started

-- The pool after the steps of its master and its fiber.
abbrev told : Pool
told = move_master (move_master (request_shutdown (launch 1)))

abbrev over : Pool
over = move_master (move_master (move_fiber told 0 top))

abbrev thread : Pool → Thread
thread p = record { processor = 3; pool = p }

abbrev ended_machine : Machine
ended_machine = record { threads = thread over ∷ []; caller = ended }

ended_machine-Reach : Reach 1 topology ended_machine
unfolding started_machine launch move_master request_shutdown close_pool move_fiber fiber_step
    join_step
ended_machine-Reach =
    next
      (next
        (next
          (next
            (next
              (next
                (next (next (next started (calls refl)) (notifies 0 (thread (launch 1)) refl refl))
                  (works 0 (thread (request_shutdown (launch 1))) _ refl master_goes))
                (works 0 (thread (move_master (request_shutdown (launch 1)))) _ refl master_goes))
              (works 0 (thread told) _ refl (fiber_goes 0 top refl)))
            (works 0 (thread (move_fiber told 0 top)) _ refl master_goes))
          (works 0 (thread (move_master (move_fiber told 0 top))) _ refl master_goes))
        (joins 0 (thread over) refl refl refl))
      (leaves 1 refl refl)

ended-ThreadEnded_example : ThreadEnded over
ended-ThreadEnded_example =
    ended-ThreadEnded one ended_machine 0 (thread over) ended_machine-Reach refl refl
