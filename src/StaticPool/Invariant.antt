-- ===== src/StaticPool/Invariant.antt =====
-- What holds of the pool of `operator()` after any steps.
use boost_job.Common.{ℕ, ◌<◌, ◌≡◌, ◌≢◌, List, [], ◌++◌, length, total}
use boost_job.Queue.{QueueStatus, opened}
use boost_job.StaticPool.{Pc, Master, waits, closes, joins, returned, Pool, is_blocked}
use boost_job.StaticPool.Turns.{is_done, DoneBelow, AllDone}

-- What the place of the master says of the queue and the fibers.
abbrev pub Stage : Master → QueueStatus → List Pc → Type 0
Stage waits st fs = st ≡ opened
Stage closes st fs = st ≡ opened
Stage (joins k) st fs = (st ≡ QueueStatus.closed) × DoneBelow k fs
Stage returned st fs = (st ≡ QueueStatus.closed) × AllDone fs

pub record Inv (n : ℕ) (p : Pool) : Type 0 where
  pub size : length p.fibers ≡ n
  pub fifo : p.offered ≡ p.taken ++ p.jobs
  pub awake : p.jobs ≢ [] → total is_blocked p.fibers < n
  pub released : p.state ≡ QueueStatus.closed → total is_blocked p.fibers ≡ 0
  pub at_work : p.state ≡ opened → total is_done p.fibers ≡ 0
  pub stage : Stage p.master p.state p.fibers
