-- ===== src/DynamicPool/Safety.antt =====
-- What holds in every state that a pool reaches.
use boost_job.Common.{
  ℕ, ◌+◌, ◌≤◌, ◌<◌, ◌≡◌, ◌≢◌, sym, ap, subst, ◌∙◌, false, some, [], ◌++◌, length, get_elem?, total,
  get_elem?-le-total, light_member, if◌then◌else◌, arith,
}
use boost_job.Queue.{QueueStatus, opened}
use boost_job.StaticPool.{Master}
use boost_job.DynamicPool.{Pc, blocked, done, WorkerFiber, Pool, Reach}
use boost_job.DynamicPool.Weights.{is_active, there, is_there, idle, is_idle, unfinished}
use boost_job.DynamicPool.Invariant.{Stage, Inv}
use boost_job.DynamicPool.Reachable.{Reach-Inv}

module _ (min max : ℕ) (positive : 0 < min) {p : Pool} (reach : Reach min max p) where
  inv : Inv min p
  inv = Reach-Inv min max positive reach

  -- With Min at least one, in any state that the pool reaches, the accepted jobs are those that
  -- fibers have taken, in the order of acceptance, followed by those that wait.
  pub Reach-fifo : p.offered ≡ p.taken ++ p.jobs
  unfolding inv
  Reach-fifo = inv.fifo

  -- With Min at least one, in any state that the pool reaches with the queue open, the counter is
  -- the number of fibers that have started and not ended, at least Min fibers have not ended, and
  -- no more fibers were made than Min and one for each job that was taken.
  pub Reach-counted :
      p.state ≡ opened
      → (p.spawned ≡ total is_active p.fibs)
        × (min ≤ total is_there p.fibs)
        × (length p.fibs ≤ min + length p.taken)
  unfolding inv
  Reach-counted o = (inv.counted, inv.kept o, omega (arith, inv.grown))

  -- With Min at least one, in any state that the pool reaches with the queue open, if a job waits,
  -- then some fiber is neither blocked in `pop` nor at its end.
  pub Reach-awake :
      p.state ≡ opened
      → p.jobs ≢ []
      → (i : ℕ) × (f : WorkerFiber) × (get_elem? p.fibs i ≡ some f)
        × (f.pc ≢ blocked)
        × (f.pc ≢ done)
  unfolding inv
  Reach-awake o ne =
      let (i, f, at, free) = light_member is_idle p.fibs (inv.awake o ne) in
      (
        i,
        f,
        at,
        λ b. absurd (omega (arith, free, ap idle b)),
        λ d. absurd (omega (arith, free, ap idle d)),
      )

  -- With Min at least one, if `operator()` has returned, the queue is closed and every fiber that
  -- was made before the close has ended.
  pub returned-ended :
      p.master ≡ Master.returned
      → (i : ℕ) (f : WorkerFiber) → get_elem? p.fibs i ≡ some f
      → f.late ≡ false
      → (p.state ≡ QueueStatus.closed) × (f.pc ≡ done)
  unfolding inv
  returned-ended e i f at early =
      let (c, none_left) = subst (λ m. Stage m p.state p.fibs) e inv.stage in
      let gone : unfinished f ≡ 0 =
        omega (arith, get_elem?-le-total unfinished p.fibs i f at, none_left) in
      (c, ended f.pc (sym (ap (λ l. if l then 0 else there f.pc) early) ∙ gone))
    where
      ended : (pc : Pc) → there pc ≡ 0 → pc ≡ done
      ended pc h = ground arith
