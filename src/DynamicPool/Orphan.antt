-- ===== src/DynamicPool/Orphan.antt =====
-- A fiber that is made after the close, and that the loop of the joins has passed.
use boost_job.Common.{
  ℕ, ◌<◌, ◌≡◌, refl, ap, subst, true, false, ◌&&◌, none, some, List, [], ◌∷◌, get_elem?, total, ltb,
  if◌then◌else◌, arith,
}
use boost_job.Queue.{QueueStatus}
use boost_job.Rendezvous
use boost_job.Rendezvous.{Rendezvous}
use boost_job.StaticPool.{Master, joins}
use boost_job.DynamicPool.{
  Pc, created, top, popping, blocked, holding, running, sweeping, done, WorkerFiber, Pool,
  worker_fiber, worker_fn_, take_turn, insert_fiber, detach_all, end_fiber, launch, move_fiber,
  close_pool, is_done, join_fiber, receive, master_step, move_master, wake_one, accept, submit_job,
  request_shutdown, fiber_moves, submitted, notified, master_moves, Reach, launched, next,
}

-- The first fiber, at a place.
abbrev first : Pc → WorkerFiber
first pc = record { pc = pc; terminated = false; joinable = true; late = false }

abbrev pub joined_first : WorkerFiber
joined_first = record { pc = done; terminated = false; joinable = false; late = false }

abbrev pub orphan : WorkerFiber
orphan = record { pc = created; terminated = false; joinable = true; late = true }

abbrev pub state : QueueStatus → List ℕ → List WorkerFiber → ℕ → Master → List ℕ → List ℕ → Pool
state st js fs n m offered taken = record {
  state = st;
  jobs = js;
  rdzv = record { flag = false };
  fibs = fs;
  spawned = n;
  master = m;
  offered = offered;
  taken = taken;
}

module _ (max : ℕ) (more : 1 < max) where
  -- Up to the close: one fiber waits, two jobs arrive, and the shutdown.
  closing :
      Reach 1 max
        (state QueueStatus.closed (1 ∷ 2 ∷ []) (first popping ∷ []) 1 (joins 0) (1 ∷ 2 ∷ []) [])
  unfolding launch move_fiber worker_fn_ take_turn worker_fiber submit_job accept wake_one
      request_shutdown move_master master_step receive close_pool Rendezvous.fresh Rendezvous.notify
      Rendezvous.wait total
  closing =
      next
        (next
          (next
            (next
              (next
                (next
                  (next (next launched (fiber_moves true 0 0 (first created) refl (omega arith)))
                    (fiber_moves true 0 0 (first top) refl (omega arith)))
                  (fiber_moves true 0 0 (first popping) refl (omega arith)))
                (submitted 1 (some (0, first blocked)) (refl, refl)))
              (submitted 2 none refl))
            notified)
          master_moves)
        master_moves

  -- The fiber takes the first job and makes a new fiber, whose key is the smaller one.
  abbrev behind : Pc → List WorkerFiber
  behind pc = orphan ∷ first pc ∷ []

  abbrev pub after : List WorkerFiber → ℕ → Master → Pool
  after fs n m = state QueueStatus.closed (2 ∷ []) fs n m (1 ∷ 2 ∷ []) (1 ∷ [])

  spawning : Reach 1 max (after (behind (running 1)) 1 (joins 1))
  unfolding move_fiber worker_fn_ take_turn insert_fiber worker_fiber
  spawning =
      subst (λ q. Reach 1 max q)
        (ap
          (λ b.
            if b && true
            then after (behind (running 1)) 1 (joins 1)
            else after (first (running 1) ∷ []) 1 (joins 0))
          below)
        (next (next closing (fiber_moves true 0 0 (first popping) refl (omega arith)))
          (fiber_moves true 0 0 (first (holding 1)) refl (omega arith)))
    where
      below : ltb 1 max ≡ true
      below = ground arith

  -- It ends, the master joins it, and the loop is over.
  pub passed : Reach 1 max (after (orphan ∷ joined_first ∷ []) 0 Master.returned)
  unfolding move_fiber worker_fn_ take_turn detach_all end_fiber move_master master_step join_fiber
      is_done
  passed =
      next
        (next
          (next
            (next (next spawning (fiber_moves true 0 1 (first (running 1)) refl (omega arith)))
              (fiber_moves true 0 1 (first sweeping) refl (omega arith)))
            (fiber_moves true 0 1 (first top) refl (omega arith)))
          master_moves)
        master_moves

  -- With Min one and any Max above one, there is a run in which `operator()` returns while a fiber
  -- that was made after the close has not ended and is still joinable.
  pub returned-orphan :
      (p : Pool) × Reach 1 max p × (p.master ≡ Master.returned) × (get_elem? p.fibs 0 ≡ some orphan)
  returned-orphan = (after (orphan ∷ joined_first ∷ []) 0 Master.returned, passed, refl, refl)
