-- ===== src/Topology/Freebsd.antt =====
-- src/freebsd/topology.cpp. The functions on processor sets are parameters.
mod Ones
mod Tests
use boost_job.Common.{
  ℕ, zero, suc, ◌-◌, ◌^◌, Option, none, some, List, [], ◌∷◌, ◌++◌, ltb, ◌==◌, if◌then◌else◌,
}
use boost_job.Topology.{Topo, blank}

-- The answer of `cpuset_isset` as a `uint32_t`: 2 ^ 32 - 1 for an index that is out of range.
pub record Cpuset : Type 0 where
  pub isset : ℕ → ℕ

-- The loop from `i` on, with the entries so far; `none` when the fuel is used up.
unfoldable pub enumerate : ℕ → Cpuset → ℕ → List Topo → Option (List Topo)
enumerate zero set i topo = none
enumerate (suc fuel) set i topo =
    let processor_id = set.isset i in
    let entry = record blank { node_id = some 0; processor_id = some processor_id } in
    let found = enumerate fuel set (suc i) (topo ++ entry ∷ []) in
    let skipped = enumerate fuel set (suc i) topo in
    if processor_id == 2 ^ 32 - 1 then some topo else if ltb 0 processor_id then found else skipped

-- The system: sets live at addresses, and `content` is what `cpuset_isset` reads at one.
pub record Calls (State : Type 0) : Type 0 where
  pub cpuset_create : State → Option ℕ × State
  pub cpuset_zero : ℕ → State → State
  pub pthread_getaffinity_np : ℕ → State → ℕ × State
  pub content : ℕ → State → Cpuset
  pub cpuset_destroy : ℕ → State → State
  pub errno : State → ℕ

pub data Outcome : Type 0 where
  returned : List Topo → Outcome
  system_error : ℕ → Outcome
  diverges : Outcome

abbrev pub completed : Option (List Topo) → Outcome
completed none = diverges
completed (some topo) = returned topo

module _ {State : Type 0} (fuel : ℕ) (sys : Calls State) where
  -- The test of the affinity call, and the loop.
  unfoldable pub read_set : ℕ → ℕ × State → Outcome
  unfolding enumerate
  read_set set (err, s) =
      if err == 0 then completed (enumerate fuel (sys.content set s) 0 []) else returned []

  -- Behind the creation of the set.
  unfoldable pub with_set : Option ℕ × State → Outcome × State
  unfolding read_set
  with_set (none, s) = (system_error (sys.errno s), s)
  with_set (some set, s) =
      let r = sys.pthread_getaffinity_np set (sys.cpuset_zero set s) in
      (read_set set r, sys.cpuset_destroy set r.1)

  unfoldable pub cpu_topology : State → Outcome × State
  unfolding with_set
  cpu_topology s = with_set (sys.cpuset_create s)
