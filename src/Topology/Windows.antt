-- ===== src/Topology/Windows.antt =====
-- src/windows/topology.cpp, and what src/windows/pin.cpp computes. The records of the system are NUMA nodes and
-- caches, with a processor group and a 64-bit mask each; Enumerator walks through the buffer that
-- holds them.
mod CpuSets
mod Enumerator
mod Walk
mod Maps
mod Entries
mod Told
mod Tests
use boost_job.Common.{
  ℕ, zero, suc, ◌+◌, ◌*◌, ◌/◌, ◌%◌, ◌^◌, Bool, ◌||◌, some, List, [], ◌∷◌, map, ltb, ◌==◌,
  if◌then◌else◌,
}
use boost_job.Topology.{Topo, blank}
use boost_job.Topology.Ids.{insert, erase}

pub record NumaNode : Type 0 where
  pub node_number : ℕ
  pub group : ℕ
  pub mask : ℕ

pub data CacheType : Type 0 where
  unified instruction data_cache trace : CacheType

pub record Cache : Type 0 where
  pub cache_type : CacheType
  pub level : ℕ
  pub group : ℕ
  pub mask : ℕ

-- `mask & ( static_cast< KAFFINITY >( 1) << i)`
abbrev pub has_bit : ℕ → ℕ → Bool
has_bit mask i = mask / 2 ^ i % 2 == 1

-- The loop from `i` on, for so many bits.
unfoldable pub insert_bits : ℕ → ℕ → ℕ → ℕ → List ℕ → List ℕ
insert_bits zero i group_id mask cpu_set = cpu_set
insert_bits (suc n) i group_id mask cpu_set =
    insert_bits n (suc i) group_id mask
      (if has_bit mask i then insert ((64 * group_id + i) % 2 ^ 32) cpu_set else cpu_set)

unfoldable pub compute_cpu_set : ℕ → ℕ → List ℕ
unfolding insert_bits
compute_cpu_set group_id mask = insert_bits 64 0 group_id mask []

abbrev pub CpuMap : Type 0
CpuMap = List (ℕ × Topo)

-- What `cpu_map[i]` makes of a key that is missing.
abbrev pub value_initialized : Topo
value_initialized = record blank { node_id = some 0; processor_id = some 0 }

-- A change of `cpu_map[i]`.
unfoldable pub update : ℕ → (Topo → Topo) → CpuMap → CpuMap
update i f [] = (i, f value_initialized) ∷ []
update i f ((j, t) ∷ m) =
    let rest = update i f m in
    if ltb i j
    then (i, f value_initialized) ∷ (j, t) ∷ m
    else if i == j
    then (j, f t) ∷ m
    else (j, t) ∷ rest

unfoldable pub add_cpus : (ℕ → Topo → Topo) → List ℕ → CpuMap → CpuMap
unfolding update
add_cpus f [] m = m
add_cpus f (i ∷ is) m = add_cpus f is (update i (f i) m)

-- The body of the loop over the NUMA nodes.
unfoldable pub add_node : NumaNode → CpuMap → CpuMap
unfolding add_cpus
add_node n m =
    add_cpus (λ i _. record blank { node_id = some n.node_number; processor_id = some i })
      (compute_cpu_set n.group n.mask) m

-- The cases of the switch.
unfoldable pub share : ℕ → List ℕ → ℕ → Topo → Topo
share level cpu_set i t =
    if level == 1
    then record t { l1_shared_with = erase i cpu_set }
    else if level == 2
    then record t { l2_shared_with = erase i cpu_set }
    else if level == 3
    then record t { l3_shared_with = erase i cpu_set }
    else t

abbrev pub is_level : ℕ → Bool
is_level level = (level == 1) || ((level == 2) || (level == 3))

unfoldable pub share_all : Cache → CpuMap → CpuMap
unfolding share add_cpus compute_cpu_set
share_all c m =
    let cpu_set = compute_cpu_set c.group c.mask in
    if is_level c.level then add_cpus (share c.level cpu_set) cpu_set m else m

unfoldable pub add_typed : CacheType → Cache → CpuMap → CpuMap
unfolding share_all
add_typed CacheType.unified c m = share_all c m
add_typed CacheType.data_cache c m = share_all c m
add_typed _ c m = m

-- The body of the loop over the caches: those of instructions are ignored.
unfoldable pub add_cache : Cache → CpuMap → CpuMap
unfolding add_typed
add_cache c m = add_typed c.cache_type c m

unfoldable pub add_nodes : List NumaNode → CpuMap → CpuMap
unfolding add_node
add_nodes [] m = m
add_nodes (n ∷ ns) m = add_nodes ns (add_node n m)

unfoldable pub add_caches : List Cache → CpuMap → CpuMap
unfolding add_cache
add_caches [] m = m
add_caches (c ∷ cs) m = add_caches cs (add_cache c m)

-- What `cpu_topology` makes of all the records of its two enumerations.
unfoldable pub topology_of : List NumaNode → List Cache → List Topo
unfolding add_nodes add_caches
topology_of nodes caches = map (λ p. p.1) (add_caches caches (add_nodes nodes []))

-- `GROUP_AFFINITY`, and what `pin_thread` puts into it. The group is a `WORD`.
pub record GroupAffinity : Type 0 where
  pub group : ℕ
  pub mask : ℕ

unfoldable pub affinity_of : ℕ → GroupAffinity
affinity_of cpuid = record { group = cpuid / 64 % 2 ^ 16; mask = 2 ^ (cpuid % 64) }
