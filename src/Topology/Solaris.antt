-- ===== src/Topology/Solaris.antt =====
-- src/solaris/topology.cpp: a walk through the locality groups. The functions of liblgrp on one
-- cookie are a parameter.
mod Groups
mod Tests
use boost_job.Common.{
  ℕ, zero, suc, Bool, Option, none, some, List, [], ◌∷◌, ◌++◌, map, if◌then◌else◌,
}
use boost_job.Topology.{Topo, blank}

-- `none` stands for -1; `has_memory` for a positive `lgrp_mem_size`.
pub record Lgrp : Type 0 where
  pub root : Option ℕ
  pub cpus : ℕ → Option (List ℕ)
  pub has_memory : ℕ → Bool
  pub children : ℕ → Option (List ℕ)
  pub errno : ℕ

-- `length_error` is what `nodes.resize( size)` throws for a negative size.
pub data Outcome : Type 0 where
  returned : List Topo → Outcome
  system_error : ℕ → Outcome
  length_error diverges : Outcome

-- `explore` on each child; an exception ends the loop.
unfoldable pub explore_each : (ℕ → List Topo → Outcome) → List ℕ → List Topo → Outcome
explore_each visit [] topo = returned topo
explore_each visit (node ∷ nodes) topo = elim (visit node topo) [
  | returned topo' ↦ explore_each visit nodes topo'
  | system_error e ↦ system_error e
  | length_error ↦ length_error
  | diverges ↦ diverges
]

unfoldable pub entries : ℕ → List ℕ → List Topo
entries node cpuids = map (λ i. record blank { node_id = some node; processor_id = some i }) cpuids

-- The fuel is the depth of the groups.
unfoldable pub explore : ℕ → Lgrp → ℕ → List Topo → Outcome
unfolding explore_each entries
explore zero sys node topo = diverges
explore (suc fuel) sys node topo = elim (sys.cpus node) [
  | none ↦ returned topo
  | some cpuids ↦
      let topo' = if sys.has_memory node then topo ++ entries node cpuids else topo in
      elim (sys.children node) [
        | none ↦ length_error
        | some nodes ↦ explore_each (explore fuel sys) nodes topo'
      ]
]

unfoldable pub cpu_topology : ℕ → Lgrp → Outcome
unfolding explore
cpu_topology fuel sys = elim sys.root [
  | none ↦ system_error sys.errno
  | some root ↦ explore fuel sys root []
]
