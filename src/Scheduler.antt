-- ===== src/Scheduler.antt =====
-- include/boost/job/scheduler.hpp, src/scheduler.cpp, and of a worker thread
-- (include/boost/job/detail/worker_thread.hpp, src/detail/worker_thread.cpp) its creation, its
-- shutdown and `queue_at`: which worker threads there are, which one a job for a processor goes
-- to, and how all of them are told to end. The assertions are switched on.
mod Topologies
pub mod Slots
pub mod Startup
mod Same
mod Reorder
pub mod Order
pub mod Unordered
pub mod Teardown
mod Tests
use boost_job.Common.{
  ℕ, suc, ◌+◌, ◌%◌, ◌^◌, Bool, true, false, Option, none, some, List, [], ◌∷◌, length, get_elem?,
  set, replicate, ltb, ◌==◌, if◌then◌else◌,
}
use boost_job.Topology.{Topo}
use boost_job.Rendezvous
use boost_job.Rendezvous.{Rendezvous}

-- A value, an exception, a failed assertion, or what has no meaning in C++.
pub data Outcome (A : Type 0) : Type 0 where
  returned : A → Outcome A
  thrown : ℕ → Outcome A
  aborted undefined : Outcome A

infixl 5 ◌>>=◌
abbrev pub ◌>>=◌ : {A B : Type 0} → Outcome A → (A → Outcome B) → Outcome B
returned a >>= k = k a
thrown e >>= k = thrown e
aborted >>= k = aborted
undefined >>= k = undefined

pub record WorkerThread : Type 0 where
  pub rdzv : Rendezvous
  pub topology : Topo
  pub joinable : Bool

abbrev pub Slots : Type 0
Slots = List (Option WorkerThread)

-- A `std::map` in the order of its keys.
abbrev pub TopologyMap : Type 0
TopologyMap = List (ℕ × Topo)

pub record Scheduler : Type 0 where
  pub topology : TopologyMap
  pub worker_threads : Slots

-- What the system answers: the exception of a worker thread's allocation or start, and that of the
-- join with the thread of a processor.
pub record Platform : Type 0 where
  pub refuses : Topo → Option ℕ
  pub join_fails : ℕ → Option ℕ

-- Each entry with the `processor_id` that is read from it.
unfoldable pub read_ids : List Topo → Outcome TopologyMap
read_ids [] = returned []
read_ids (t ∷ ts) = elim t.processor_id [
  | none ↦ undefined
  | some i ↦ read_ids ts >>= λ xs. returned ((i, t) ∷ xs)
]

-- `map[i] = t;`
unfoldable pub assign : ℕ → Topo → TopologyMap → TopologyMap
assign i t [] = (i, t) ∷ []
assign i t ((j, u) ∷ m) =
    let rest = assign i t m in
    if ltb i j then (i, t) ∷ (j, u) ∷ m else if i == j then (i, t) ∷ m else (j, u) ∷ rest

unfoldable pub assign_all : TopologyMap → TopologyMap → TopologyMap
assign_all [] m = m
assign_all ((i, t) ∷ xs) m = assign_all xs (assign i t m)

unfoldable pub create_topology_map : TopologyMap → TopologyMap
create_topology_map xs = assign_all xs []

abbrev pub lookup : ℕ → TopologyMap → Option Topo
lookup i [] = none
lookup i ((j, t) ∷ m) = if i == j then some t else lookup i m

-- `std::max_element` from a first element on.
unfoldable pub max_element : ℕ → TopologyMap → ℕ
max_element best [] = best
max_element best ((i, t) ∷ xs) = if ltb best i then max_element i xs else max_element best xs

-- The number of slots, in 32 bits; no maximum can be read in an empty topology.
unfoldable pub slot_count : TopologyMap → Outcome ℕ
slot_count [] = undefined
slot_count ((i, t) ∷ xs) = returned ((max_element i xs + 1) % 2 ^ 32)

unfoldable pub check_size : TopologyMap → TopologyMap → Outcome (Unit {0})
check_size xs m = if length xs == length m then returned tt else aborted

module _ (sys : Platform) where
  -- `worker_thread::create`.
  unfoldable pub create : Topo → Outcome WorkerThread
  unfolding Rendezvous.fresh
  create t = elim (sys.refuses t) [
    | some e ↦ thrown e
    | none ↦ returned (record { rdzv = Rendezvous.fresh; topology = t; joinable = true })
  ]

  -- The loop of the constructor. No slot is written twice, by the assertion before it.
  unfoldable pub allocate_workers : TopologyMap → Slots → Outcome Slots
  allocate_workers [] ws = returned ws
  allocate_workers ((i, t) ∷ xs) ws = create t >>= λ w.
      let rest = allocate_workers xs (set ws i (some w)) in
      if ltb i (length ws) then rest else undefined

  unfoldable pub scheduler : List Topo → Outcome Scheduler
  unfolding create_topology_map
  scheduler ts = read_ids ts >>= λ xs. slot_count xs >>= λ n.
      check_size xs (create_topology_map xs) >>= λ _.
      allocate_workers xs (replicate n none) >>= λ ws.
      returned (record { topology = create_topology_map xs; worker_threads = ws })

  unfoldable pub end_thread : WorkerThread → Option ℕ → WorkerThread × Option ℕ
  unfolding Rendezvous.notify
  end_thread w (some e) = (record w { rdzv = Rendezvous.notify w.rdzv }, some e)
  end_thread w none = (record w { rdzv = Rendezvous.notify w.rdzv; joinable = false }, none)

  -- `worker_thread::shutdown` of the processor's thread, and the exception that it throws.
  unfoldable pub shutdown_worker : ℕ → WorkerThread → WorkerThread × Option ℕ
  unfolding end_thread
  shutdown_worker i w = if w.joinable then end_thread w (sys.join_fails i) else (w, none)

  -- `except = std::current_exception();`
  abbrev pub latest : Option ℕ → Option ℕ → Option ℕ
  latest except none = except
  latest except (some e) = some e

  -- The loop over the map, with `except`. A hole or an index out of range is not a thread.
  unfoldable pub shutdown_all : TopologyMap → Slots → Option ℕ → Outcome (Slots × Option ℕ)
  unfolding shutdown_worker
  shutdown_all [] ws except = returned (ws, except)
  shutdown_all ((i, t) ∷ m) ws except = elim (get_elem? ws i) [
    | some (some w) ↦
        let (w', e) = shutdown_worker i w in shutdown_all m (set ws i (some w')) (latest except e)
    | _ ↦ undefined
  ]

  -- The slots afterwards, and the exception that is thrown at the end.
  unfoldable pub shutdown : Scheduler → Outcome (Slots × Option ℕ)
  shutdown s = shutdown_all s.topology s.worker_threads none

-- `worker_threads_[processor_id]`, a null pointer where there is no thread.
unfoldable pub worker_at : Scheduler → ℕ → Outcome (Option WorkerThread)
worker_at s i = elim (get_elem? s.worker_threads i) [ none ↦ undefined | some w ↦ returned w ]

-- `worker_thread::queue_at`: the queue of another processor's thread, here the thread itself.
unfoldable pub queue_at : Scheduler → ℕ → Outcome (Option WorkerThread)
unfolding worker_at
queue_at s i = worker_at s i >>= λ w. elim w [ none ↦ returned none | some w ↦ returned (some w) ]

node_of : WorkerThread → Option Topo → Outcome (WorkerThread × Option ℕ)
node_of w none = undefined
node_of w (some t) = returned (w, t.node_id)

-- Where `submit_preempt` and `submit_coop` put a job for `cpuid`: the thread, and the node that its
-- memory is taken from.
unfoldable pub submit_target : Scheduler → ℕ → Outcome (WorkerThread × Option ℕ)
unfolding worker_at node_of
submit_target s i =
    worker_at s i >>= λ o. elim o [ none ↦ undefined | some w ↦ node_of w (lookup i s.topology) ]
