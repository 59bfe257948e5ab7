-- ===== src/Topology/Solaris/Groups.antt =====
-- The walk through a finite tree of locality groups.
use boost_job.Common.{
  ℕ, zero, suc, ◌+◌, ◌≤◌, ◌<◌, ◌≡◌, refl, ap, ◌∙◌, Bool, true, false, none, some, List, [], ◌∷◌,
  ◌++◌, append_assoc, if◌then◌else◌, arith,
}
use boost_job.Topology.{Topo}
use boost_job.Topology.Solaris.{Lgrp, returned, explore_each, entries, explore, cpu_topology}

-- A group whose processors the system does not tell, and one with its memory, its processors, and
-- the groups below it.
mutual
  pub data Group : Type 0 where
    unknown : ℕ → Group
    group : ℕ → Bool → List ℕ → Groups → Group

  pub data Groups : Type 0 where
    nil : Groups
    cons : Group → Groups → Groups

abbrev pub id_of : Group → ℕ
id_of (unknown node) = node
id_of (group node memory cpuids gs) = node

abbrev pub ids_of : Groups → List ℕ
ids_of nil = []
ids_of (cons g gs) = id_of g ∷ ids_of gs

-- How many groups there are.
unfoldable mutual
  pub count : Group → ℕ
  count (unknown node) = 1
  count (group node memory cpuids gs) = suc (count_below gs)

  pub count_below : Groups → ℕ
  count_below nil = 0
  count_below (cons g gs) = count g + count_below gs

-- A group with memory before the groups below it.
unfoldable mutual
  pub listing : Group → List Topo
  listing (unknown node) = []
  listing (group node memory cpuids gs) =
      (if memory then entries node cpuids else []) ++ listing_below gs

  pub listing_below : Groups → List Topo
  listing_below nil = []
  listing_below (cons g gs) = listing g ++ listing_below gs

module _ (sys : Lgrp) where
  unfoldable mutual
    pub Shows : Group → Type 0
    Shows (unknown node) = sys.cpus node ≡ none
    Shows (group node memory cpuids gs) =
        (sys.cpus node ≡ some cpuids)
        × (sys.has_memory node ≡ memory)
        × (sys.children node ≡ some (ids_of gs))
        × ShowsBelow gs

    pub ShowsBelow : Groups → Type 0
    ShowsBelow nil = Unit {0}
    ShowsBelow (cons g gs) = Shows g × ShowsBelow gs

  append_nil : (ts : List Topo) → ts ≡ ts ++ []
  append_nil [] = refl
  append_nil (t ∷ ts) = ap (λ us. t ∷ us) (append_nil ts)

  unknown_lem :
      (node fuel : ℕ) (topo : List Topo)
      → 0 < fuel
      → sys.cpus node ≡ none
      → explore fuel sys node topo ≡ returned (topo ++ [])
  unfolding explore
  unknown_lem node zero topo h e = absurd (omega arith)
  unknown_lem node (suc fuel) topo h e = rw (explore, e) (ap returned (append_nil topo))

  own :
      (memory : Bool) (es topo : List Topo)
      → (if memory then topo ++ es else topo) ≡ topo ++ (if memory then es else [])
  own true es topo = refl
  own false es topo = append_nil topo

  group_lem :
      (node : ℕ) (memory : Bool) (cpuids ids : List ℕ) (more : List Topo) (n fuel : ℕ)
      (topo : List Topo)
      → n < fuel
      → sys.cpus node ≡ some cpuids
      → sys.has_memory node ≡ memory
      → sys.children node ≡ some ids
      → ((k : ℕ) (us : List Topo)
          → n ≤ k
          → explore_each (explore k sys) ids us ≡ returned (us ++ more))
      → explore fuel sys node topo
        ≡ returned (topo ++ ((if memory then entries node cpuids else []) ++ more))
  unfolding explore
  group_lem node memory cpuids ids more n zero topo h c m d below = absurd (omega arith)
  group_lem node memory cpuids ids more n (suc fuel) topo h c m d below =
      rw (explore, c, d, m)
        (below fuel _ (omega arith)
          ∙ ap (λ us. returned (us ++ more)) (own memory (entries node cpuids) topo)
          ∙ ap returned (append_assoc topo (if memory then entries node cpuids else []) more))

  each_lem :
      (g : Group) (ids : List ℕ) (fuel : ℕ) (topo first more : List Topo)
      → explore fuel sys (id_of g) topo ≡ returned (topo ++ first)
      → explore_each (explore fuel sys) ids (topo ++ first) ≡ returned ((topo ++ first) ++ more)
      → explore_each (explore fuel sys) (id_of g ∷ ids) topo ≡ returned (topo ++ (first ++ more))
  unfolding explore_each
  each_lem g ids fuel topo first more now later =
      rw (explore_each, now) (later ∙ ap returned (append_assoc topo first more))

  mutual
    unfolding listing count Shows explore_each

    explore_lem :
        (g : Group) (fuel : ℕ) (topo : List Topo)
        → count g ≤ fuel
        → Shows g
        → explore fuel sys (id_of g) topo ≡ returned (topo ++ listing g)
    explore_lem (unknown node) fuel topo h s = unknown_lem node fuel topo (omega arith) s
    explore_lem (group node memory cpuids gs) fuel topo h (c, m, d, below) =
        group_lem node memory cpuids (ids_of gs) (listing_below gs) (count_below gs) fuel topo
          (omega arith) c m d (λ k us small. explore_each_lem gs k us small below)

    explore_each_lem :
        (gs : Groups) (fuel : ℕ) (topo : List Topo)
        → count_below gs ≤ fuel
        → ShowsBelow gs
        → explore_each (explore fuel sys) (ids_of gs) topo ≡ returned (topo ++ listing_below gs)
    explore_each_lem nil fuel topo h s = ap returned (append_nil topo)
    explore_each_lem (cons g gs) fuel topo h (here, below) =
        each_lem g (ids_of gs) fuel topo (listing g) (listing_below gs)
          (explore_lem g fuel topo (omega arith) here)
          (explore_each_lem gs fuel (topo ++ listing g) (omega arith) below)

  -- On a system whose groups form a finite tree, with fuel for their number, the function returns the
  -- entries of each group that has memory and whose processors are told, a group before the groups
  -- below it, which are in their order; a group whose processors are not told is left out with all
  -- that is below it.
  pub cpu_topology-listing :
      (g : Group) (fuel : ℕ)
      → sys.root ≡ some (id_of g)
      → Shows g
      → count g ≤ fuel
      → cpu_topology fuel sys ≡ returned (listing g)
  unfolding cpu_topology
  cpu_topology-listing g fuel root s h = rw (cpu_topology, root) (explore_lem g fuel [] h s)
