-- ===== src/Topology/Windows/Tests.antt =====
-- Bits 0 and 2 in group 1; a system with one node, which has processors 0 to 2, and one L1 cache of
-- processors 0 and 1.
use boost_job.Common.{
  List, none, ℕ, ◌/◌, ◌%◌, ◌≡◌, ◌&&◌, ◌==◌, refl, some, [], ◌∷◌, get_elem?, arith,
}
use boost_job.Topology.{Topo, blank}
use boost_job.Topology.Ids.{member, insert, erase}
use boost_job.Topology.Windows.{NumaNode, CacheType, Cache, has_bit, insert_bits, compute_cpu_set}
use boost_job.Topology.Windows.CpuSets.{compute_cpu_set-member}
use boost_job.Topology.Windows.Enumerator.{
  ProcInfo, fails, filled, insufficient_buffer, returned, cpu_topology,
}
use boost_job.Topology.Windows.Walk.{Lists, in_buffer}
use boost_job.Topology.Windows.Told.{cpu_topology-entry}
use boost_job.Topology.Windows.Entries.{node_entry, shared_with}

compute_cpu_set-member_example :
    member 66 (compute_cpu_set 1 5) ≡ ((66 / 64 == 1) && has_bit 5 (66 % 64))
compute_cpu_set-member_example = compute_cpu_set-member 1 5 66 (omega arith)

abbrev node : NumaNode
node = record { node_number = 4; group = 0; mask = 7 }

abbrev cache : Cache
cache = record { cache_type = CacheType.data_cache; level = 1; group = 0; mask = 3 }

abbrev nodes : ProcInfo NumaNode
nodes = record {
  probe = fails insufficient_buffer 48;
  local_alloc = λ size. some 8192;
  fill = λ base size. filled 48;
  size_at = λ a. 48;
  entry_at = λ a. node;
}

-- Two records of 32 bytes.
abbrev caches : ProcInfo Cache
caches = record {
  probe = fails insufficient_buffer 64;
  local_alloc = λ size. some 8192;
  fill = λ base size. filled 64;
  size_at = λ a. 32;
  entry_at = λ a. cache;
}

nodes-Lists : Lists nodes (node ∷ [])
nodes-Lists =
    in_buffer (node ∷ []) 48 8192 48 refl refl refl (omega arith) (refl, refl, omega arith)

caches-Lists : Lists caches (cache ∷ cache ∷ [])
caches-Lists =
    in_buffer (cache ∷ cache ∷ []) 64 8192 64 refl refl refl (omega arith)
      (refl, omega arith, omega arith, (refl, refl, omega arith))

abbrev first_cpu : Topo
first_cpu = record blank { node_id = some 4; processor_id = some 0 }

first_entry : node_entry 0 (node ∷ []) none ≡ some first_cpu
unfolding compute_cpu_set insert_bits insert
first_entry = refl

cpu_topology-entry_example :
    (ts : List Topo) × (cpu_topology 3 nodes caches (4096 ∷ []) ≡ (returned ts, 4096 ∷ []))
    × ((i : ℕ) × (get_elem? ts i
          ≡ some (record first_cpu {
            l1_shared_with = shared_with 0 1 (cache ∷ cache ∷ []) [];
            l2_shared_with = shared_with 0 2 (cache ∷ cache ∷ []) [];
            l3_shared_with = shared_with 0 3 (cache ∷ cache ∷ []) [];
          })))
cpu_topology-entry_example =
    cpu_topology-entry nodes caches (node ∷ []) (cache ∷ cache ∷ []) 3 (4096 ∷ []) 0 first_cpu
      (omega arith) (omega arith) nodes-Lists caches-Lists first_entry

-- The other processor of its cache.
shared_first : shared_with 0 1 (cache ∷ []) [] ≡ 1 ∷ []
unfolding compute_cpu_set insert_bits insert erase
shared_first = refl
