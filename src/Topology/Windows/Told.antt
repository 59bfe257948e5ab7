-- ===== src/Topology/Windows/Told.antt =====
-- `cpu_topology` from the answers of the system to its entries.
use boost_job.Common.{ℕ, ◌<◌, ◌≡◌, none, some, List, length, get_elem?}
use boost_job.Topology.{Topo}
use boost_job.Topology.Windows.{NumaNode, Cache, topology_of}
use boost_job.Topology.Windows.Enumerator.{ProcInfo, returned, cpu_topology}
use boost_job.Topology.Windows.Walk.{Lists, cpu_topology-Lists}
use boost_job.Topology.Windows.Entries.{node_entry, shared_with, topology_of-entry}

-- If the system answers with a list of NUMA nodes and a list of caches, each of them empty or in a
-- buffer of records whose sizes add up to less than 2 ^ 32 bytes, then with fuel above the lengths of
-- both lists `cpu_topology` returns and leaves no block allocated that was not before; and for a
-- processor that the mask of some node has, an entry of the result has its number, the node that is
-- the last in the list whose mask has it, and for each level the other processors of the last data or
-- unified cache of that level that has it, and none if there is no such cache.
pub cpu_topology-entry :
    (nodes : ProcInfo NumaNode) (caches : ProcInfo Cache) (ns : List NumaNode) (cs : List Cache)
    (fuel : ℕ) (blocks : List ℕ) (x : ℕ) (t : Topo)
    → length ns < fuel
    → length cs < fuel
    → Lists nodes ns
    → Lists caches cs
    → node_entry x ns none ≡ some t
    → (ts : List Topo) × (cpu_topology fuel nodes caches blocks ≡ (returned ts, blocks))
      × ((i : ℕ) × (get_elem? ts i
            ≡ some (record t {
              l1_shared_with = shared_with x 1 cs t.l1_shared_with;
              l2_shared_with = shared_with x 2 cs t.l2_shared_with;
              l3_shared_with = shared_with x 3 cs t.l3_shared_with;
            })))
cpu_topology-entry nodes caches ns cs fuel blocks x t fn fc ln lc e = (
  topology_of ns cs,
  cpu_topology-Lists nodes caches ns cs fuel blocks fn fc ln lc,
  topology_of-entry ns cs x t e,
)
