-- ===== src/DynamicPool.antt =====
-- include/boost/job/dynamic_pool.hpp: between Min and Max worker fibers, which start further fibers
-- and end themselves. As in StaticPool, one step is what a fiber does between two operations that
-- may let another one run, and the queue is a buffer. The map of the fibers is the list of its
-- entries in the order of their keys; a new entry may come to stand anywhere in it. A new fiber
-- starts at a step of its own.
mod Weights
mod Invariant
mod Local
mod Steps
mod Fibers
mod Accepted
mod Reachable
mod Safety
mod Executed
mod Orphan
mod Overshoot
mod Handles
mod Tests
use boost_job.Common.{
  ℕ, suc, ◌+◌, ◌-◌, ◌≤◌, ◌≡◌, Bool, true, false, not, ◌&&◌, ◌||◌, Option, none, some, List, [], ◌∷◌,
  ◌++◌, map, length, get_elem?, set, replicate, total, insert_at, ltb, leb, if◌then◌else◌,
}
use boost_job.Queue.{QueueStatus, opened}
use boost_job.Rendezvous
use boost_job.Rendezvous.{Rendezvous}
use boost_job.StaticPool.{Master, waits, closes, joins}

-- Where a worker fiber stands.
pub data Pc : Type 0 where
  created : Pc  -- not started
  top : Pc  -- at the test of `q->closed()`
  popping : Pc  -- in `q->pop( w)`, at the test of its loop
  blocked : Pc  -- in `q->pop( w)`, waiting for `not_empty_cond_`
  holding : ℕ → Pc  -- behind the pop
  running : ℕ → Pc  -- in `w->execute()`
  sweeping : Pc  -- behind `w->execute()`
  done : Pc

-- An entry of the map. `late` marks, for the statements only, a fiber that was made after the queue
-- was closed.
pub record WorkerFiber : Type 0 where
  pub pc : Pc
  pub terminated : Bool
  pub joinable : Bool
  pub late : Bool

pub record Pool : Type 0 where
  pub state : QueueStatus
  pub jobs : List ℕ
  pub rdzv : Rendezvous
  pub fibs : List WorkerFiber
  pub spawned : ℕ
  pub master : Master
  pub offered : List ℕ
  pub taken : List ℕ

abbrev pub is_closed : QueueStatus → Bool
is_closed opened = false
is_closed QueueStatus.closed = true

abbrev pub is_nil : List ℕ → Bool
is_nil [] = true
is_nil (f ∷ fs) = false

-- The constructor of `worker_fiber`.
unfoldable pub worker_fiber : QueueStatus → WorkerFiber
worker_fiber st = record { pc = created; terminated = false; joinable = true; late = is_closed st }

-- `detach`, for the entries that are marked.
abbrev pub detach : WorkerFiber → WorkerFiber
detach f = record f { joinable = if f.terminated then false else f.joinable }

-- What one fiber does to the queue and the counter, and where it stands then.
pub record Turn : Type 0 where
  pub pc : Pc
  pub left : List ℕ
  pub took : List ℕ
  pub count : ℕ

abbrev turn : Pc → List ℕ → List ℕ → ℕ → Turn
turn pc left took count = record { pc = pc; left = left; took = took; count = count }

-- `worker_fn_`, but for the parts that change the map.
unfoldable pub worker_fn_ : QueueStatus → List ℕ → ℕ → Pc → Turn
worker_fn_ st js n created = turn top js [] (suc n)
worker_fn_ opened js n top = turn popping js [] n
worker_fn_ QueueStatus.closed js n top = turn done js [] (n - 1)
worker_fn_ st (f ∷ js) n popping = turn (holding f) js (f ∷ []) n
worker_fn_ opened [] n popping = turn blocked [] [] n
worker_fn_ QueueStatus.closed [] n popping = turn top [] [] n
worker_fn_ st js n blocked = turn blocked js [] n
worker_fn_ st js n (holding f) = turn (running f) js [] n
worker_fn_ st js n (running f) = turn sweeping js [] n
worker_fn_ st js n sweeping = turn top js [] n
worker_fn_ st js n done = turn done js [] n

unfoldable pub take_turn : Pool → ℕ → WorkerFiber → Turn → Pool
take_turn p i f t = record p {
  jobs = t.left;
  fibs = set p.fibs i (record f { pc = t.pc });
  spawned = t.count;
  taken = p.taken ++ t.took;
}

-- An iterator at entry `k` stays at its entry when another is inserted.
abbrev pub shift : ℕ → Master → Master
shift at (joins k) = if leb at k then joins (suc k) else joins k
shift at m = m

-- `( * fibs)[id] = std::move( f);`, for an id that the map does not have.
unfoldable pub insert_fiber : ℕ → Pool → Pool
unfolding worker_fiber
insert_fiber at p = record p {
  fibs = insert_at at (worker_fiber p.state) p.fibs;
  master = shift at p.master;
}

unfoldable pub detach_all : Pool → Pool
detach_all p = record p { fibs = map detach p.fibs }

-- `set_terminated`, the end of the loop, and `--( * spawned)`.
unfoldable pub end_fiber : Pool → ℕ → WorkerFiber → Pool
end_fiber p i f = record p {
  fibs = set p.fibs i (record f { pc = done; terminated = true });
  spawned = p.spawned - 1;
}

module _ (min max : ℕ) where
  unfoldable pub launch : Pool
  unfolding worker_fiber Rendezvous.fresh
  launch = record {
    state = opened;
    jobs = [];
    rdzv = Rendezvous.fresh;
    fibs = replicate min (worker_fiber opened);
    spawned = 0;
    master = waits;
    offered = [];
    taken = [];
  }

  -- A step of fiber `i`, with the answer of `has_ready_fibers` and the place of a new entry. The loop
  -- that detaches goes over the fiber itself too.
  unfoldable pub move_fiber : Bool → ℕ → Pool → ℕ → WorkerFiber → Pc → Pool
  unfolding worker_fn_ take_turn insert_fiber detach_all end_fiber
  move_fiber ready at p i f (holding w) =
      let q = take_turn p i f (worker_fn_ p.state p.jobs p.spawned (holding w)) in
      if ltb p.spawned max && (not (is_nil p.jobs) || not ready) then insert_fiber at q else q
  move_fiber ready at p i f sweeping =
      let q = detach_all p in
      if is_nil p.jobs && (ltb min p.spawned && ready)
      then end_fiber q i (detach f)
      else take_turn q i (detach f) (worker_fn_ p.state p.jobs p.spawned sweeping)
  move_fiber ready at p i f pc = take_turn p i f (worker_fn_ p.state p.jobs p.spawned pc)

-- A signal moves a waiter back to the test of its loop.
abbrev pub wake_pc : Pc → Pc
wake_pc blocked = popping
wake_pc pc = pc

abbrev pub wake : WorkerFiber → WorkerFiber
wake f = record f { pc = wake_pc f.pc }

unfoldable pub close_pool : Pool → Pool
close_pool p = record p { state = QueueStatus.closed; fibs = map wake p.fibs }

pub is_done : Pc → Bool
is_done done = true
is_done pc = false

-- `v.second.join()`: it waits for a fiber that is not done, and leaves out one that is detached.
unfoldable pub join_fiber : ℕ → Option WorkerFiber → Pool → Pool
unfolding is_done
join_fiber k none p = record p { master = Master.returned }
join_fiber k (some f) p =
    if f.joinable
    then (if is_done f.pc
        then record p {
          fibs = set p.fibs k (record f { joinable = false });
          master = joins (suc k);
        }
        else p)
    else record p { master = joins (suc k) }

unfoldable pub receive : Pool → Option Rendezvous → Pool
receive p none = p
receive p (some r) = record p { rdzv = r; master = closes }

unfoldable pub master_step : Master → Pool → Pool
unfolding receive close_pool join_fiber Rendezvous.wait
master_step waits p = receive p (Rendezvous.wait p.rdzv)
master_step closes p = record (close_pool p) { master = joins 0 }
master_step (joins k) p = join_fiber k (get_elem? p.fibs k) p
master_step Master.returned p = p

-- What follows the creation of the Min fibers in `operator()`.
unfoldable pub move_master : Pool → Pool
unfolding master_step
move_master p = master_step p.master p

unfoldable pub wake_one : Option (ℕ × WorkerFiber) → List WorkerFiber → List WorkerFiber
wake_one none fs = fs
wake_one (some (i, f)) fs = set fs i (record f { pc = popping })

unfoldable pub accept : QueueStatus → ℕ → Option (ℕ × WorkerFiber) → Pool → Pool
unfolding wake_one
accept QueueStatus.closed f w p = p
accept opened f w p = record p {
  jobs = p.jobs ++ f ∷ [];
  fibs = wake_one w p.fibs;
  offered = p.offered ++ f ∷ [];
}

-- `push` of a job, with the waiter that its `notify_one` wakes. A closed queue drops the job.
unfoldable pub submit_job : Pool → ℕ → Option (ℕ × WorkerFiber) → Pool
unfolding accept
submit_job p f w = accept p.state f w p

unfoldable pub request_shutdown : Pool → Pool
unfolding Rendezvous.notify
request_shutdown p = record p { rdzv = Rendezvous.notify p.rdzv }

abbrev pub waiter : Pc → ℕ
waiter blocked = 1
waiter _ = 0

-- A `notify_one` wakes one of the waiters if there is one.
abbrev pub Wakes : List WorkerFiber → Option (ℕ × WorkerFiber) → Type 0
Wakes fs none = total (λ f. waiter f.pc) fs ≡ 0
Wakes fs (some (i, f)) = (get_elem? fs i ≡ some f) × (f.pc ≡ blocked)

module _ (min max : ℕ) where
  -- One step of anybody. A condition variable may also wake a waiter for no reason.
  pub data Step (p : Pool) : Pool → Type 0 where
    fiber_moves :
        (ready : Bool) (at i : ℕ) (f : WorkerFiber)
        → get_elem? p.fibs i ≡ some f
        → at ≤ length p.fibs
        → Step p (move_fiber min max ready at p i f f.pc)
    woken :
        (i : ℕ) (f : WorkerFiber)
        → get_elem? p.fibs i ≡ some f
        → f.pc ≡ blocked
        → Step p (record p { fibs = set p.fibs i (record f { pc = popping }) })
    submitted : (f : ℕ) (w : Option (ℕ × WorkerFiber)) → Wakes p.fibs w → Step p (submit_job p f w)
    notified : Step p (request_shutdown p)
    master_moves : Step p (move_master p)

  pub data Reach : Pool → Type 0 where
    launched : Reach (launch min max)
    next : {p q : Pool} → Reach p → Step p q → Reach q
