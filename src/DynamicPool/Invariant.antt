-- ===== src/DynamicPool/Invariant.antt =====
-- What holds of the pool of `operator()` after any steps.
use boost_job.Common.{ℕ, ◌+◌, ◌≤◌, ◌<◌, ◌≡◌, ◌≢◌, List, [], ◌++◌, length, total, total_below}
use boost_job.Queue.{QueueStatus, opened}
use boost_job.StaticPool.{Master, waits, closes, joins}
use boost_job.DynamicPool.{WorkerFiber, Pool}
use boost_job.DynamicPool.Weights.{
  waits_pc, is_active, is_there, is_idle, is_holding, is_late, mismarked, unfinished,
}

-- What the place of the master says of the queue and the fibers.
abbrev pub Stage : Master → QueueStatus → List WorkerFiber → Type 0
Stage waits st fs = st ≡ opened
Stage closes st fs = st ≡ opened
Stage (joins k) st fs = (st ≡ QueueStatus.closed) × (total_below unfinished k fs ≡ 0)
Stage Master.returned st fs = (st ≡ QueueStatus.closed) × (total unfinished fs ≡ 0)

pub record Inv (min : ℕ) (p : Pool) : Type 0 where
  pub fifo : p.offered ≡ p.taken ++ p.jobs
  pub counted : p.spawned ≡ total is_active p.fibs
  pub kept : p.state ≡ opened → min ≤ total is_there p.fibs
  pub awake : p.state ≡ opened → p.jobs ≢ [] → total is_idle p.fibs < length p.fibs
  pub released : p.state ≡ QueueStatus.closed → total waits_pc p.fibs ≡ 0
  pub on_time : p.state ≡ opened → total is_late p.fibs ≡ 0
  pub marked : total mismarked p.fibs ≡ 0
  pub grown : length p.fibs + total is_holding p.fibs ≤ min + length p.taken
  pub stage : Stage p.master p.state p.fibs
