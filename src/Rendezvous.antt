-- ===== src/Rendezvous.antt =====
-- include/boost/job/detail/rendezvous.hpp and src/detail/rendezvous.cpp: the signal by which a
-- worker thread is told to shut down. Each operation runs under the mutex; `none` from `wait` means
-- that the caller blocks in `cond_` and starts again when it is woken.
use boost_job.Common.{Bool, true, false, Option, none, some, if◌then◌else◌}

pub record Rendezvous : Type 0 where
  pub flag : Bool

unfoldable pub fresh : Rendezvous
fresh = record { flag = false }

unfoldable pub notify : Rendezvous → Rendezvous
notify r = record { flag = true }

unfoldable pub wait : Rendezvous → Option Rendezvous
wait r = if r.flag then some (record { flag = false }) else none
