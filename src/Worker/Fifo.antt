-- ===== src/Worker/Fifo.antt =====
-- What a worker thread promises about its jobs, with no pointers: a first-in first-out buffer.
use boost_job.Common.{ℕ, List, [], ◌∷◌, ◌++◌}
use boost_job.Queue.{QueueStatus, opened}
use boost_job.Worker.{
  Op, submits, takes, finishes, closes, Reply, accepted, refused, waits, gone, quiet, starts,
}

pub record Fifo : Type 0 where
  pub state : QueueStatus
  pub jobs : List ℕ

abbrev offer : ℕ → QueueStatus → List ℕ → Reply × Fifo
offer f opened js = (accepted, record { state = opened; jobs = js ++ f ∷ [] })
offer f QueueStatus.closed js = (refused, record { state = QueueStatus.closed; jobs = js })

abbrev serve : QueueStatus → List ℕ → Reply × Fifo
serve opened [] = (waits, record { state = opened; jobs = [] })
serve QueueStatus.closed [] = (gone, record { state = QueueStatus.closed; jobs = [] })
serve st (f ∷ js) = (starts f, record { state = st; jobs = js })

unfoldable pub fifo_step : Op → Fifo → Reply × Fifo
fifo_step (submits p f) q = offer f q.state q.jobs
fifo_step takes q = serve q.state q.jobs
fifo_step (finishes p) q = (quiet, q)
fifo_step closes q = (quiet, record q { state = QueueStatus.closed })

unfoldable pub fifo_run : List Op → Fifo → List Reply × Fifo
fifo_run [] q = ([], q)
fifo_run (o ∷ os) q = let (r, q') = fifo_step o q in let (rs, u) = fifo_run os q' in (r ∷ rs, u)
