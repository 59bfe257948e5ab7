-- ===== src/StaticPool.antt =====
-- include/boost/job/static_pool.hpp: the `N` worker fibers of one worker thread, the master fiber
-- that starts and joins them, and whoever submits jobs or asks for the shutdown. One step is what a
-- fiber does between two operations on the queue or the rendezvous. The queue is the buffer that
-- Worker/Refinement shows it to be.
mod Turns
pub mod Invariant
mod Moves
pub mod Shutdown
pub mod Termination
pub mod Told
pub mod Executed
mod Tests
use boost_job.Common.{
  ℕ, suc, ◌≡◌, Option, none, some, List, [], ◌∷◌, ◌++◌, map, get_elem?, set, replicate, total,
}
use boost_job.Queue.{QueueStatus, opened}
use boost_job.Rendezvous
use boost_job.Rendezvous.{Rendezvous}

-- Where a worker fiber stands.
pub data Pc : Type 0 where
  top : Pc  -- at the test of `q->closed()`
  popping : Pc  -- in `q->pop( w)`, at the test of its loop
  blocked : Pc  -- in `q->pop( w)`, waiting for `not_empty_cond_`
  running : ℕ → Pc  -- in `w->execute()`
  done : Pc

-- Where the master fiber stands; the number counts the fibers that are joined.
pub data Master : Type 0 where
  waits closes returned : Master
  joins : ℕ → Master

-- `offered` and `taken` list, for the statements only, the jobs that `push` accepted and those that
-- fibers have taken, each in order.
pub record Pool : Type 0 where
  pub state : QueueStatus
  pub jobs : List ℕ
  pub rdzv : Rendezvous
  pub fibers : List Pc
  pub master : Master
  pub offered : List ℕ
  pub taken : List ℕ

unfoldable pub launch : ℕ → Pool
unfolding Rendezvous.fresh
launch n = record {
  state = opened;
  jobs = [];
  rdzv = Rendezvous.fresh;
  fibers = replicate n top;
  master = waits;
  offered = [];
  taken = [];
}

-- The fiber's next place, the jobs that are left, and the job that it took.
pub record Turn : Type 0 where
  pub pc : Pc
  pub left : List ℕ
  pub took : List ℕ

abbrev turn : Pc → List ℕ → List ℕ → Turn
turn pc left took = record { pc = pc; left = left; took = took }

-- The loop of a worker fiber.
unfoldable pub fiber_step : QueueStatus → List ℕ → Pc → Turn
fiber_step opened js top = turn popping js []
fiber_step QueueStatus.closed js top = turn done js []
fiber_step st (f ∷ js) popping = turn (running f) js (f ∷ [])
fiber_step opened [] popping = turn blocked [] []
fiber_step QueueStatus.closed [] popping = turn top [] []
fiber_step st js (running f) = turn top js []
fiber_step st js blocked = turn blocked js []
fiber_step st js done = turn done js []

unfoldable pub move_fiber : Pool → ℕ → Pc → Pool
unfolding fiber_step
move_fiber p i pc =
    let t = fiber_step p.state p.jobs pc in
    record p { jobs = t.left; fibers = set p.fibers i t.pc; taken = p.taken ++ t.took }

-- A signal moves a waiter back to the test of its loop.
abbrev pub wake : Pc → Pc
wake blocked = popping
wake pc = pc

-- `close` sends `notify_all`.
unfoldable pub close_pool : Pool → Pool
close_pool p = record p { state = QueueStatus.closed; fibers = map wake p.fibers }

unfoldable pub join_step : ℕ → Option Pc → Master
join_step k (some done) = joins (suc k)
join_step k (some _) = joins k
join_step k none = returned

receive : Pool → Option Rendezvous → Pool
receive p none = p
receive p (some r) = record p { rdzv = r; master = closes }

master_step : Master → Pool → Pool
unfolding receive close_pool join_step Rendezvous.wait
master_step waits p = receive p (Rendezvous.wait p.rdzv)
master_step closes p = record (close_pool p) { master = joins 0 }
master_step (joins k) p = record p { master = join_step k (get_elem? p.fibers k) }
master_step returned p = p

-- What follows the creation of the fibers in `operator()`.
unfoldable pub move_master : Pool → Pool
unfolding master_step
move_master p = master_step p.master p

wake_one : Option ℕ → List Pc → List Pc
wake_one none fs = fs
wake_one (some i) fs = set fs i popping

accept : QueueStatus → ℕ → Option ℕ → Pool → Pool
unfolding wake_one
accept QueueStatus.closed f w p = p
accept opened f w p = record p {
  jobs = p.jobs ++ f ∷ [];
  fibers = wake_one w p.fibers;
  offered = p.offered ++ f ∷ [];
}

-- `push` of a job, with the waiter that its `notify_one` wakes. A closed queue drops the job.
unfoldable pub submit_job : Pool → ℕ → Option ℕ → Pool
unfolding accept
submit_job p f w = accept p.state f w p

-- `worker_thread::shutdown` as far as this thread sees it.
unfoldable pub request_shutdown : Pool → Pool
unfolding Rendezvous.notify
request_shutdown p = record p { rdzv = Rendezvous.notify p.rdzv }

abbrev pub is_blocked : Pc → ℕ
is_blocked blocked = 1
is_blocked _ = 0

-- A `notify_one` wakes one of the waiters if there is one.
abbrev pub Wakes : List Pc → Option ℕ → Type 0
Wakes fs none = total is_blocked fs ≡ 0
Wakes fs (some i) = get_elem? fs i ≡ some blocked

-- One step of anybody. A condition variable may also wake a waiter for no reason.
pub data Step (p : Pool) : Pool → Type 0 where
  fiber_moves : (i : ℕ) (pc : Pc) → get_elem? p.fibers i ≡ some pc → Step p (move_fiber p i pc)
  woken :
      (i : ℕ)
      → get_elem? p.fibers i ≡ some blocked
      → Step p (record p { fibers = set p.fibers i popping })
  submitted : (f : ℕ) (w : Option ℕ) → Wakes p.fibers w → Step p (submit_job p f w)
  notified : Step p (request_shutdown p)
  master_moves : Step p (move_master p)

-- A step of the pool's own fibers.
pub data OwnStep (p : Pool) : Pool → Type 0 where
  fiber_goes : (i : ℕ) (pc : Pc) → get_elem? p.fibers i ≡ some pc → OwnStep p (move_fiber p i pc)
  master_goes : OwnStep p (move_master p)

pub own : {p q : Pool} → OwnStep p q → Step p q
own (fiber_goes i pc e) = fiber_moves i pc e
own master_goes = master_moves

pub data Reach (n : ℕ) : Pool → Type 0 where
  launched : Reach n (launch n)
  next : {p q : Pool} → Reach n p → Step p q → Reach n q
