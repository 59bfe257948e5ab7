-- ===== src/Topology/Hpux/Chain.antt =====
-- What `cpu_topology` of HP-UX lists.
use boost_job.Common.{
  ℕ, zero, suc, ◌≤◌, ◌≡◌, refl, ap, ◌∙◌, true, Option, none, some, List, [], ◌∷◌, ◌++◌,
  append_assoc, map, length, if◌then◌else◌, arith,
}
use boost_job.Topology.{Topo, blank}
use boost_job.Topology.Hpux.{Mpctl, returned, enumerate, cpu_topology}

-- From `cpu` on, the system goes through these processors, each on its node.
abbrev pub Visits : Mpctl → Option ℕ → List (ℕ × ℕ) → Type 0
Visits sys cpu [] = cpu ≡ none
Visits sys cpu ((i, node) ∷ xs) =
    (cpu ≡ some i) × (sys.ldom i ≡ some node) × Visits sys (sys.next_spu i) xs

abbrev pub entry : ℕ × ℕ → Topo
entry (i, node) = record blank { node_id = some node; processor_id = some i }

enumerate-next :
    (fuel i node : ℕ) (sys : Mpctl) (topo : List Topo)
    → sys.ldom i ≡ some node
    → enumerate (suc fuel) sys (some i) topo
      ≡ enumerate fuel sys (sys.next_spu i) (topo ++ entry (i, node) ∷ [])
unfolding enumerate
enumerate-next fuel i node sys topo e = rw (enumerate, e) refl

enumerate-none :
    (fuel : ℕ) (sys : Mpctl) (topo : List Topo) → enumerate fuel sys none topo ≡ returned topo
unfolding enumerate
enumerate-none fuel sys topo = refl

enumerate-Visits :
    (sys : Mpctl) (xs : List (ℕ × ℕ)) (cpu : Option ℕ) (fuel : ℕ) (topo : List Topo)
    → Visits sys cpu xs
    → length xs ≤ fuel
    → enumerate fuel sys cpu topo ≡ returned (topo ++ map entry xs)
enumerate-Visits sys [] cpu fuel topo v h =
    ap (λ c. enumerate fuel sys c topo) v
    ∙ enumerate-none fuel sys topo
    ∙ ap returned (append_nil topo)
  where
    append_nil : (ts : List Topo) → ts ≡ ts ++ []
    append_nil [] = refl
    append_nil (t ∷ ts) = ap (λ us. t ∷ us) (append_nil ts)
enumerate-Visits sys ((i, node) ∷ xs) cpu zero topo v h = absurd (omega arith)
enumerate-Visits sys ((i, node) ∷ xs) cpu (suc fuel) topo (at, on, rest) h =
    ap (λ c. enumerate (suc fuel) sys c topo) at
    ∙ enumerate-next fuel i node sys topo on
    ∙ enumerate-Visits sys xs (sys.next_spu i) fuel (topo ++ entry (i, node) ∷ []) rest
        (omega arith)
    ∙ ap returned (append_assoc topo (entry (i, node) ∷ []) (map entry xs))

-- On a NUMA system whose enumeration goes through a list of processors, each of which has a node,
-- and ends, the function returns one entry for each of them in that order, with fuel for all.
pub cpu_topology-Visits :
    (sys : Mpctl) (xs : List (ℕ × ℕ)) (fuel : ℕ)
    → sys.ccnuma_supported ≡ true
    → Visits sys sys.first_spu xs
    → length xs ≤ fuel
    → cpu_topology fuel sys ≡ returned (map entry xs)
unfolding cpu_topology
cpu_topology-Visits sys xs fuel on v h =
    ap (λ b. if b then enumerate fuel sys sys.first_spu [] else returned []) on
    ∙ enumerate-Visits sys xs sys.first_spu fuel [] v h
