-- ===== src/Machine.antt =====
-- The worker threads of a scheduler, each with a static pool, and the thread that ends them:
-- `scheduler::shutdown` of src/scheduler.cpp with `worker_thread::shutdown` of
-- src/detail/worker_thread.cpp, where the joins succeed. The entries of the topology map stand in
-- the order of their processor ids.
mod Invariant
mod Shutdown
mod Tests
use boost_job.Common.{ℕ, suc, ◌≡◌, Option, none, some, List, map, get_elem?, set}
use boost_job.StaticPool.{
  Pc, blocked, popping, Pool, Master, returned, launch, submit_job, request_shutdown, Wakes,
  OwnStep,
}
use boost_job.Scheduler.{TopologyMap}

pub record Thread : Type 0 where
  pub processor : ℕ
  pub pool : Pool

-- The thread that calls `shutdown`: before that, at the entry that it turns to, in the join with
-- the thread of an entry, or behind the loop.
pub data Caller : Type 0 where
  elsewhere ended : Caller
  notifying joining : ℕ → Caller

pub record Machine : Type 0 where
  pub threads : List Thread
  pub caller : Caller

-- A scheduler whose pools have so many fibers each.
unfoldable pub started_machine : ℕ → TopologyMap → Machine
started_machine n m = record {
  threads = map (λ e. record { processor = e.0; pool = launch n }) m;
  caller = elsewhere;
}

abbrev pub with_pool : Machine → ℕ → Thread → Pool → Machine
with_pool m k t p = record m { threads = set m.threads k (record t { pool = p }) }

-- One step of anybody: a fiber of a pool, a waiter that wakes for no reason, a submission to a
-- thread, and the loop of `shutdown`.
pub data Step (m : Machine) : Machine → Type 0 where
  works :
      (k : ℕ) (t : Thread) (q : Pool)
      → get_elem? m.threads k ≡ some t
      → OwnStep t.pool q
      → Step m (with_pool m k t q)
  wakes :
      (k i : ℕ) (t : Thread)
      → get_elem? m.threads k ≡ some t
      → get_elem? t.pool.fibers i ≡ some blocked
      → Step m (with_pool m k t (record t.pool { fibers = set t.pool.fibers i popping }))
  submits :
      (k f : ℕ) (w : Option ℕ) (t : Thread)
      → get_elem? m.threads k ≡ some t
      → Wakes t.pool.fibers w
      → Step m (with_pool m k t (submit_job t.pool f w))
  calls : m.caller ≡ elsewhere → Step m (record m { caller = notifying 0 })
  notifies :
      (k : ℕ) (t : Thread)
      → m.caller ≡ notifying k
      → get_elem? m.threads k ≡ some t
      → Step m (record (with_pool m k t (request_shutdown t.pool)) { caller = joining k })
  joins :
      (k : ℕ) (t : Thread)
      → m.caller ≡ joining k
      → get_elem? m.threads k ≡ some t
      → t.pool.master ≡ returned
      → Step m (record m { caller = notifying (suc k) })
  leaves :
      (k : ℕ)
      → m.caller ≡ notifying k
      → get_elem? m.threads k ≡ none
      → Step m (record m { caller = ended })

pub data Reach (n : ℕ) (topology : TopologyMap) : Machine → Type 0 where
  started : Reach n topology (started_machine n topology)
  next : {l m : Machine} → Reach n topology l → Step l m → Reach n topology m

pub data Run (m : Machine) : Machine → Type 0 where
  here : Run m m
  then : {k l : Machine} → Run m k → Step k l → Run m l
