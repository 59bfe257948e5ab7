-- ===== src/WorkerThread/Current.antt =====
-- A job that submits a job.
use boost_job.Scheduler.{Scheduler}
