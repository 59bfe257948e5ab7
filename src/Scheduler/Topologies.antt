-- ===== src/Scheduler/Topologies.antt =====
-- The map that `create_topology_map` builds, and its size.
use boost_job.Common.{
  ℕ, suc, ◌+◌, ◌≤◌, ◌<◌, ◌≡◌, refl, sym, ap, ◌∙◌, false, Option, none, some, [], ◌∷◌, length, ◌==◌,
  if◌then◌else◌, Bool-cases, ==_iff, inl, inr, arith,
}
use boost_job.Topology.{Topo}
use boost_job.Scheduler.{TopologyMap, assign, assign_all, create_topology_map, lookup, max_element}

-- No two entries have the same `processor_id`.
abbrev pub Distinct : TopologyMap → Type 0
Distinct [] = Unit {0}
Distinct ((i, t) ∷ xs) = (lookup i xs ≡ none) × Distinct xs

abbrev pub AllBelow : ℕ → TopologyMap → Type 0
AllBelow b [] = Unit {0}
AllBelow b ((i, t) ∷ xs) = (i < b) × AllBelow b xs

abbrev pub Above : ℕ → TopologyMap → Type 0
Above b [] = Unit {0}
Above b ((i, t) ∷ m) = (b < i) × Above i m

abbrev pub IsAscending : TopologyMap → Type 0
IsAscending [] = Unit {0}
IsAscending ((i, t) ∷ m) = Above i m

abbrev pub or_else : Option Topo → Option Topo → Option Topo
or_else none o = o
or_else (some t) o = some t

assign-Above : (b i : ℕ) (t : Topo) (m : TopologyMap) → b < i → Above b m → Above b (assign i t m)
unfolding assign
assign-Above b i t [] h a = (h, tt)
assign-Above b i t ((j, u) ∷ m) h a = ground (arith, assign-Above j i t m)

assign-IsAscending :
    (i : ℕ) (t : Topo) (m : TopologyMap) → IsAscending m → IsAscending (assign i t m)
unfolding assign
assign-IsAscending i t [] a = tt
assign-IsAscending i t ((j, u) ∷ m) a = ground (arith, assign-Above j i t m)

pub assign_all-IsAscending : (xs m : TopologyMap) → IsAscending m → IsAscending (assign_all xs m)
unfolding assign_all
assign_all-IsAscending [] m a = a
assign_all-IsAscending ((i, t) ∷ xs) m a =
    assign_all-IsAscending xs (assign i t m) (assign-IsAscending i t m a)

pub Above-lookup : (b i : ℕ) (m : TopologyMap) → Above b m → i ≤ b → lookup i m ≡ none
Above-lookup b i [] a h = refl
Above-lookup b i ((j, u) ∷ m) a h = ground (arith, Above-lookup j i m)

Above-Distinct : (b : ℕ) (m : TopologyMap) → Above b m → Distinct m
Above-Distinct b [] a = tt
Above-Distinct b ((j, u) ∷ m) a = (Above-lookup j j m a.1 (omega arith), Above-Distinct j m a.1)

IsAscending-Distinct : (m : TopologyMap) → IsAscending m → Distinct m
IsAscending-Distinct [] a = tt
IsAscending-Distinct ((j, u) ∷ m) a = (Above-lookup j j m a (omega arith), Above-Distinct j m a)

pub create_topology_map-Distinct : (xs : TopologyMap) → Distinct (create_topology_map xs)
unfolding create_topology_map
create_topology_map-Distinct xs =
    IsAscending-Distinct (assign_all xs []) (assign_all-IsAscending xs [] tt)

lookup-assign :
    (x i : ℕ) (t : Topo) (m : TopologyMap)
    → lookup x (assign i t m) ≡ (if x == i then some t else lookup x m)
unfolding assign
lookup-assign x i t [] = refl
lookup-assign x i t ((j, u) ∷ m) = ground (arith, lookup-assign x i t m)

lookup-assign_all :
    (x : ℕ) (xs m : TopologyMap)
    → Distinct xs
    → lookup x (assign_all xs m) ≡ or_else (lookup x xs) (lookup x m)
unfolding assign_all
lookup-assign_all x [] m d = refl
lookup-assign_all x ((i, t) ∷ xs) m d =
    lookup-assign_all x xs (assign i t m) d.1
    ∙ ap (or_else (lookup x xs)) (lookup-assign x i t m)
    ∙ elim (Bool-cases (x == i)) [
      | inl e ↦ rw (e, ap (λ y. lookup y xs) ((==_iff x i).0 e), d.0) refl
      | inr e ↦ rw e refl
    ]

pub lookup-create_topology_map :
    (x : ℕ) (xs : TopologyMap) → Distinct xs → lookup x (create_topology_map xs) ≡ lookup x xs
unfolding create_topology_map
lookup-create_topology_map x xs d = lookup-assign_all x xs [] d ∙ right (lookup x xs)
  where
    right : (o : Option Topo) → or_else o none ≡ o
    right none = refl
    right (some t) = refl

length-assign :
    (i : ℕ) (t : Topo) (m : TopologyMap)
    → lookup i m ≡ none
    → length (assign i t m) ≡ suc (length m)
unfolding assign
length-assign i t [] e = refl
length-assign i t ((j, u) ∷ m) e = ground (arith, length-assign i t m)

-- No entry of `xs` has a key of `m`.
abbrev Apart : TopologyMap → TopologyMap → Type 0
Apart [] m = Unit {0}
Apart ((i, t) ∷ xs) m = (lookup i m ≡ none) × Apart xs m

assign-Apart :
    (i : ℕ) (t : Topo) (xs m : TopologyMap)
    → lookup i xs ≡ none
    → Apart xs m
    → Apart xs (assign i t m)
assign-Apart i t [] m e a = tt
assign-Apart i t ((j, u) ∷ xs) m e a = elim (Bool-cases (i == j)) [
  | inl same ↦ absurd (some_none (rw (sym e) (rw same)))
  | inr other ↦
      (lookup-assign j i t m ∙ rw (swapped other) a.0, assign-Apart i t xs m (tail other) a.1)
]
  where
    some_none : some u ≡ none → ⊥
    some_none e = cc

    swapped : (i == j) ≡ false → (j == i) ≡ false
    swapped h = ground arith

    tail : (i == j) ≡ false → lookup i xs ≡ none
    tail h = ground (arith, e)

length-assign_all :
    (xs m : TopologyMap)
    → Distinct xs
    → Apart xs m
    → length (assign_all xs m) ≡ length xs + length m
unfolding assign_all
length-assign_all [] m d a = omega arith
length-assign_all ((i, t) ∷ xs) m d a = omega (
  arith,
  length-assign i t m a.0,
  length-assign_all xs (assign i t m) d.1 (assign-Apart i t xs m d.0 a.1),
)

empty-Apart : (xs : TopologyMap) → Apart xs []
empty-Apart [] = tt
empty-Apart (x ∷ xs) = (refl, empty-Apart xs)

pub length-create_topology_map :
    (xs : TopologyMap) → Distinct xs → length (create_topology_map xs) ≡ length xs
unfolding create_topology_map
length-create_topology_map xs d = omega (arith, length-assign_all xs [] d (empty-Apart xs))

-- Every id is at most the maximum.
pub max_element-le : (best : ℕ) (xs : TopologyMap) → best ≤ max_element best xs
unfolding max_element
max_element-le best [] = omega arith
max_element-le best ((i, t) ∷ xs) = ground (arith, max_element-le best xs, max_element-le i xs)

pub max_element-AllBelow : (best : ℕ) (xs : TopologyMap) → AllBelow (suc (max_element best xs)) xs
unfolding max_element
max_element-AllBelow best [] = tt
max_element-AllBelow best ((i, t) ∷ xs) = ground (
  arith,
  max_element-AllBelow best xs,
  max_element-AllBelow i xs,
  max_element-le best xs,
  max_element-le i xs,
)

pub max_element-lt :
    (best b : ℕ) (xs : TopologyMap) → best < b → AllBelow b xs → max_element best xs < b
unfolding max_element
max_element-lt best b [] h a = h
max_element-lt best b ((i, t) ∷ xs) h a =
    ground (arith, max_element-lt best b xs, max_element-lt i b xs)
