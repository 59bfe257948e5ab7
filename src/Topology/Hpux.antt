-- ===== src/Topology/Hpux.antt =====
-- src/hpux/topology.cpp: an enumeration of the processors by `mpctl`, which is a parameter.
mod Chain
mod Tests
use boost_job.Common.{ℕ, zero, suc, Bool, Option, none, some, List, [], ◌∷◌, ◌++◌, if◌then◌else◌}
use boost_job.Topology.{Topo, blank}

-- `none` stands for -1.
pub record Mpctl : Type 0 where
  pub ccnuma_supported : Bool
  pub first_spu : Option ℕ
  pub next_spu : ℕ → Option ℕ
  pub ldom : ℕ → Option ℕ
  pub errno : ℕ

pub data Outcome : Type 0 where
  returned : List Topo → Outcome
  system_error : ℕ → Outcome
  diverges : Outcome

unfoldable pub enumerate : ℕ → Mpctl → Option ℕ → List Topo → Outcome
enumerate fuel sys none topo = returned topo
enumerate zero sys (some cpu) topo = diverges
enumerate (suc fuel) sys (some cpu) topo = elim (sys.ldom cpu) [
  | none ↦ system_error sys.errno
  | some node ↦
      enumerate fuel sys (sys.next_spu cpu)
        (topo ++ record blank { node_id = some node; processor_id = some cpu } ∷ [])
]

unfoldable pub cpu_topology : ℕ → Mpctl → Outcome
unfolding enumerate
cpu_topology fuel sys =
    if sys.ccnuma_supported then enumerate fuel sys sys.first_spu [] else returned []
