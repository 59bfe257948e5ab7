-- ===== src/Topology/Windows/Entries.antt =====
-- What `cpu_topology` of Windows says of one processor.
use boost_job.Common.{
  ℕ, suc, ◌≡◌, refl, sym, ap, ◌∙◌, Bool, true, false, ◌&&◌, Option, none, some, List, [], ◌∷◌, map,
  get_elem?, ◌==◌, if◌then◌else◌, Bool-cases, subst, inl, inr, ◌≢◌, ℕ_discrete, arith,
}
use boost_job.Topology.{Topo, blank}
use boost_job.Topology.Ids.{erase, member}
use boost_job.Topology.Windows.{
  NumaNode, CacheType, Cache, compute_cpu_set, CpuMap, add_cpus, add_node, share, is_level,
  share_all, add_typed, add_cache, add_nodes, add_caches, topology_of,
}
use boost_job.Topology.Windows.Maps.{
  lookup, or_initialized, IsSorted, add_cpus-IsSorted, lookup-add_cpus, compute_cpu_set-IsAscending,
}

-- The last node whose mask has the processor.
abbrev pub node_entry : ℕ → List NumaNode → Option Topo → Option Topo
node_entry x [] o = o
node_entry x (n ∷ ns) o = node_entry x ns (
    if member x (compute_cpu_set n.group n.mask)
    then some (record blank { node_id = some n.node_number; processor_id = some x })
    else o)

node_topo : NumaNode → ℕ → Topo → Topo
node_topo n i _ = record blank { node_id = some n.node_number; processor_id = some i }

add_nodes-IsSorted : (ns : List NumaNode) (m : CpuMap) → IsSorted m → IsSorted (add_nodes ns m)
unfolding add_nodes add_node node_topo
add_nodes-IsSorted [] m a = a
add_nodes-IsSorted (n ∷ ns) m a =
    add_nodes-IsSorted ns _ (add_cpus-IsSorted (node_topo n) (compute_cpu_set n.group n.mask) m a)

lookup-add_nodes :
    (x : ℕ) (ns : List NumaNode) (m : CpuMap)
    → IsSorted m
    → lookup x (add_nodes ns m) ≡ node_entry x ns (lookup x m)
unfolding add_nodes add_node node_topo
lookup-add_nodes x [] m a = refl
lookup-add_nodes x (n ∷ ns) m a =
    lookup-add_nodes x ns (add_node n m)
      (add_cpus-IsSorted (node_topo n) (compute_cpu_set n.group n.mask) m a)
    ∙ ap (node_entry x ns) (
        lookup-add_cpus (node_topo n) x (compute_cpu_set n.group n.mask) m
          (compute_cpu_set-IsAscending n.group n.mask) a)

abbrev pub is_data : CacheType → Bool
is_data CacheType.unified = true
is_data CacheType.data_cache = true
is_data _ = false

-- The other processors of the last data cache of a level that the processor has, or what was known.
abbrev pub shared_with : ℕ → ℕ → List Cache → List ℕ → List ℕ
shared_with x level [] known = known
shared_with x level (c ∷ cs) known = shared_with x level cs (
    if (is_data c.cache_type && (c.level == level)) && member x (compute_cpu_set c.group c.mask)
    then erase x (compute_cpu_set c.group c.mask)
    else known)

abbrev with_caches : ℕ → List Cache → Topo → Topo
with_caches x cs t = record t {
  l1_shared_with = shared_with x 1 cs t.l1_shared_with;
  l2_shared_with = shared_with x 2 cs t.l2_shared_with;
  l3_shared_with = shared_with x 3 cs t.l3_shared_with;
}

-- One cache of a type that is not ignored.
shared_by : ℕ → Bool → List ℕ → ℕ → Topo → Topo
shared_by level has cpu_set x t = record t {
  l1_shared_with = if (level == 1) && has then erase x cpu_set else t.l1_shared_with;
  l2_shared_with = if (level == 2) && has then erase x cpu_set else t.l2_shared_with;
  l3_shared_with = if (level == 3) && has then erase x cpu_set else t.l3_shared_with;
}

abbrev Shares : ℕ → Bool → List ℕ → ℕ → Topo → Type 0
Shares level has cpu_set x t =
    (if is_level level then (if has then some (share level cpu_set x t) else some t) else some t)
    ≡ some (shared_by level has cpu_set x t)

module _ (cpu_set : List ℕ) (x : ℕ) (t : Topo) where
  level_1 : (has : Bool) → Shares 1 has cpu_set x t
  unfolding share shared_by
  level_1 true = refl
  level_1 false = refl

  level_2 : (has : Bool) → Shares 2 has cpu_set x t
  unfolding share shared_by
  level_2 true = refl
  level_2 false = refl

  level_3 : (has : Bool) → Shares 3 has cpu_set x t
  unfolding share shared_by
  level_3 true = refl
  level_3 false = refl

  unequal : (l k : ℕ) → l ≢ k → (l == k) ≡ false
  unequal l k ne = ground arith

  share_lem : (level : ℕ) (has : Bool) → Shares level has cpu_set x t
  unfolding shared_by
  share_lem level has = elim (ℕ_discrete level 1) [
    | yes e ↦ subst (λ l. Shares l has cpu_set x t) (sym e) (level_1 has)
    | no n₁ ↦ elim (ℕ_discrete level 2) [
      | yes e ↦ subst (λ l. Shares l has cpu_set x t) (sym e) (level_2 has)
      | no n₂ ↦ elim (ℕ_discrete level 3) [
        | yes e ↦ subst (λ l. Shares l has cpu_set x t) (sym e) (level_3 has)
        | no n₃ ↦ rw (shared_by, unequal level 1 n₁, unequal level 2 n₂, unequal level 3 n₃) refl
      ]
    ]
  ]

if_IsSorted : (b : Bool) (m n : CpuMap) → IsSorted m → IsSorted n → IsSorted (if b then m else n)
if_IsSorted true m n h k = h
if_IsSorted false m n h k = k

share_all-IsSorted : (c : Cache) (m : CpuMap) → IsSorted m → IsSorted (share_all c m)
unfolding share_all
share_all-IsSorted c m a =
    if_IsSorted (is_level c.level) _ m
      (add_cpus-IsSorted (share c.level (compute_cpu_set c.group c.mask))
        (compute_cpu_set c.group c.mask) m a)
      a

lookup-share_all :
    (x : ℕ) (c : Cache) (m : CpuMap) (t : Topo)
    → IsSorted m
    → lookup x m ≡ some t
    → lookup x (share_all c m)
      ≡ some (
          shared_by c.level
            (member x (compute_cpu_set c.group c.mask))
            (compute_cpu_set c.group c.mask)
            x
            t)
unfolding share_all
lookup-share_all x c m t a e =
    lookup-if (is_level c.level) (add_cpus (share c.level cpu_set) cpu_set m) _ (
      lookup-add_cpus (share c.level cpu_set) x cpu_set m
        (compute_cpu_set-IsAscending c.group c.mask) a)
    ∙ ap
        (λ o.
          if is_level c.level
          then (if member x cpu_set then some (share c.level cpu_set x (or_initialized o)) else o)
          else o)
        e
    ∙ share_lem cpu_set x t c.level (member x cpu_set)
  where
    cpu_set : List ℕ
    cpu_set = compute_cpu_set c.group c.mask

    lookup-if :
        (b : Bool) (m' : CpuMap) (o : Option Topo)
        → lookup x m' ≡ o
        → lookup x (if b then m' else m) ≡ (if b then o else lookup x m)
    lookup-if true m' o e = e
    lookup-if false m' o e = refl

-- The same for a cache of any type.
typed_entry : CacheType → Cache → ℕ → Topo → Topo
typed_entry type c x t =
    let cpu_set = compute_cpu_set c.group c.mask in
    record t {
      l1_shared_with =
          if (is_data type && (c.level == 1)) && member x cpu_set
          then erase x cpu_set
          else t.l1_shared_with;
      l2_shared_with =
          if (is_data type && (c.level == 2)) && member x cpu_set
          then erase x cpu_set
          else t.l2_shared_with;
      l3_shared_with =
          if (is_data type && (c.level == 3)) && member x cpu_set
          then erase x cpu_set
          else t.l3_shared_with;
    }

add_typed-IsSorted :
    (type : CacheType) (c : Cache) (m : CpuMap) → IsSorted m → IsSorted (add_typed type c m)
unfolding add_typed
add_typed-IsSorted CacheType.unified c m a = share_all-IsSorted c m a
add_typed-IsSorted CacheType.data_cache c m a = share_all-IsSorted c m a
add_typed-IsSorted CacheType.instruction c m a = a
add_typed-IsSorted CacheType.trace c m a = a

lookup-add_typed :
    (type : CacheType) (x : ℕ) (c : Cache) (m : CpuMap) (t : Topo)
    → IsSorted m
    → lookup x m ≡ some t
    → lookup x (add_typed type c m) ≡ some (typed_entry type c x t)
unfolding add_typed typed_entry shared_by
lookup-add_typed CacheType.unified x c m t a e = lookup-share_all x c m t a e
lookup-add_typed CacheType.data_cache x c m t a e = lookup-share_all x c m t a e
lookup-add_typed CacheType.instruction x c m t a e = e
lookup-add_typed CacheType.trace x c m t a e = e

lookup-add_caches :
    (x : ℕ) (cs : List Cache) (m : CpuMap) (t : Topo)
    → IsSorted m
    → lookup x m ≡ some t
    → lookup x (add_caches cs m) ≡ some (with_caches x cs t)
unfolding add_caches add_cache typed_entry
lookup-add_caches x [] m t a e = e
lookup-add_caches x (c ∷ cs) m t a e =
    lookup-add_caches x cs (add_cache c m) (typed_entry c.cache_type c x t)
      (add_typed-IsSorted c.cache_type c m a) (lookup-add_typed c.cache_type x c m t a e)

lookup-place :
    (x : ℕ) (m : CpuMap) (t : Topo)
    → lookup x m ≡ some t
    → (i : ℕ) × (get_elem? (map (λ p. p.1) m) i ≡ some t)
lookup-place x [] t e = absurd cc
lookup-place x ((j, u) ∷ m) t e = elim (Bool-cases (x == j)) [
  | inl b ↦ (0, sym (ap (λ b. if b then some u else lookup x m) b) ∙ e)
  | inr b ↦
      let (i, at) = lookup-place x m t (sym (ap (λ b. if b then some u else lookup x m) b) ∙ e) in
      (suc i, at)
]

-- If the mask of some node has a processor, then the topology that is made of a list of nodes and a
-- list of caches has an entry with the number of the processor, the node that is the last in the
-- list whose mask has it, and for each level the other processors of the last data or unified cache
-- of that level that has it, and none if there is no such cache.
pub topology_of-entry :
    (ns : List NumaNode) (cs : List Cache) (x : ℕ) (t : Topo)
    → node_entry x ns none ≡ some t
    → (i : ℕ) × (get_elem? (topology_of ns cs) i
        ≡ some (record t {
          l1_shared_with = shared_with x 1 cs t.l1_shared_with;
          l2_shared_with = shared_with x 2 cs t.l2_shared_with;
          l3_shared_with = shared_with x 3 cs t.l3_shared_with;
        }))
unfolding topology_of
topology_of-entry ns cs x t e =
    lookup-place x (add_caches cs (add_nodes ns [])) (with_caches x cs t) (
      lookup-add_caches x cs (add_nodes ns []) t (add_nodes-IsSorted ns [] tt)
        (lookup-add_nodes x ns [] tt ∙ e))
