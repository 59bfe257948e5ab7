-- ===== src/Topology/Windows/Maps.antt =====
-- `std::map` as a list that ascends by its keys, and the sets that `compute_cpu_set` makes.
use boost_job.Common.{
  ℕ, zero, suc, ◌<◌, ◌≡◌, refl, sym, ap, ◌∙◌, true, false, Option, none, some, List, [], ◌∷◌, ltb,
  ◌==◌, if◌then◌else◌, Bool-cases, inl, inr, ◌≢◌, dec_lt, ℕ_discrete, arith,
}
use boost_job.Topology.{Topo}
use boost_job.Topology.Ids.{member, Above, IsAscending, insert-IsAscending}
use boost_job.Topology.Windows.{
  insert_bits, has_bit, compute_cpu_set, CpuMap, value_initialized, update, add_cpus,
}

abbrev pub lookup : ℕ → CpuMap → Option Topo
lookup x [] = none
lookup x ((j, t) ∷ m) = if x == j then some t else lookup x m

abbrev pub or_initialized : Option Topo → Topo
or_initialized none = value_initialized
or_initialized (some t) = t

abbrev KeysAbove : ℕ → CpuMap → Type 0
KeysAbove b [] = Unit {0}
KeysAbove b ((j, t) ∷ m) = (b < j) × KeysAbove j m

abbrev pub IsSorted : CpuMap → Type 0
IsSorted [] = Unit {0}
IsSorted ((j, t) ∷ m) = KeysAbove j m

rest-IsSorted : (j : ℕ) (t : Topo) (m : CpuMap) → IsSorted ((j, t) ∷ m) → IsSorted m
rest-IsSorted j t [] h = tt
rest-IsSorted j t ((k, u) ∷ m) h = h.1

update-KeysAbove :
    (b i : ℕ) (f : Topo → Topo) (m : CpuMap) → b < i → KeysAbove b m → KeysAbove b (update i f m)
unfolding update
update-KeysAbove b i f [] h a = (h, tt)
update-KeysAbove b i f ((j, t) ∷ m) h a = ground (arith, update-KeysAbove j i f m)

update-IsSorted : (i : ℕ) (f : Topo → Topo) (m : CpuMap) → IsSorted m → IsSorted (update i f m)
unfolding update
update-IsSorted i f [] a = tt
update-IsSorted i f ((j, t) ∷ m) a = ground (arith, update-KeysAbove j i f m)

missing : (x b : ℕ) (m : CpuMap) → x < suc b → KeysAbove b m → lookup x m ≡ none
missing x b [] h a = refl
missing x b ((j, t) ∷ m) h a = ground (arith, missing x j m)

same_key :
    (x i j : ℕ) (p q r : Option Topo)
    → i ≡ j
    → (if x == j then p else r) ≡ (if x == i then p else if x == j then q else r)
same_key x i j p q r e = ground arith

swap_keys :
    (x i j : ℕ) (p q r : Option Topo)
    → i ≢ j
    → (if x == j then q else if x == i then p else r)
      ≡ (if x == i then p else if x == j then q else r)
swap_keys x i j p q r e = ground arith

lookup-update :
    (x i : ℕ) (f : Topo → Topo) (m : CpuMap)
    → IsSorted m
    → lookup x (update i f m)
      ≡ (if x == i then some (f (or_initialized (lookup i m))) else lookup x m)
unfolding update
lookup-update x i f [] a = refl
lookup-update x i f ((j, t) ∷ m) a = elim (dec_lt i j) [
  | yes h ↦ rw (update, below i j h, apart i j h, missing i j m (omega arith) a) refl
  | no h ↦ elim (ℕ_discrete i j) [
    | yes e ↦
        rw (update, not_below i j e, equal i j e)
          (same_key x i j (some (f t)) (some t) (lookup x m) e)
    | no ne ↦
        rw (update, above i j h, unequal i j ne)
          (ap (λ r. if x == j then some t else r) (lookup-update x i f m (rest-IsSorted j t m a))
            ∙ swap_keys x i j (some (f (or_initialized (lookup i m)))) (some t) (lookup x m) ne)
  ]
]
  where
    below : (i j : ℕ) → i < j → ltb i j ≡ true
    below i j h = ground arith

    apart : (i j : ℕ) → i < j → (i == j) ≡ false
    apart i j h = ground arith

    not_below : (i j : ℕ) → i ≡ j → ltb i j ≡ false
    not_below i j e = ground arith

    equal : (i j : ℕ) → i ≡ j → (i == j) ≡ true
    equal i j e = ground arith

    above : (i j : ℕ) → ¬ (i < j) → ltb i j ≡ false
    above i j h = ground arith

    unequal : (i j : ℕ) → i ≢ j → (i == j) ≡ false
    unequal i j ne = ground arith

-- The sets are ascending.
insert_bits-IsAscending :
    (n i g mask : ℕ) (s : List ℕ) → IsAscending s → IsAscending (insert_bits n i g mask s)
unfolding insert_bits
insert_bits-IsAscending zero i g mask s a = a
insert_bits-IsAscending (suc n) i g mask s a = elim (Bool-cases (has_bit mask i)) [
  | inl b ↦ rw b (insert_bits-IsAscending n (suc i) g mask _ (insert-IsAscending _ s a))
  | inr b ↦ rw b (insert_bits-IsAscending n (suc i) g mask s a)
]

module _ (f : ℕ → Topo → Topo) where
  pub add_cpus-IsSorted : (is : List ℕ) (m : CpuMap) → IsSorted m → IsSorted (add_cpus f is m)
  unfolding add_cpus
  add_cpus-IsSorted [] m a = a
  add_cpus-IsSorted (i ∷ is) m a =
      add_cpus-IsSorted is (update i (f i) m) (update-IsSorted i (f i) m a)

  passed : (x b : ℕ) (is : List ℕ) → x < suc b → Above b is → member x is ≡ false
  passed x b [] h a = refl
  passed x b (i ∷ is) h a = ground (arith, passed x i is)

  rest_ascends : (i : ℕ) (is : List ℕ) → Above i is → IsAscending is
  rest_ascends i [] a = tt
  rest_ascends i (j ∷ js) a = a.1

  pub lookup-add_cpus :
      (x : ℕ) (is : List ℕ) (m : CpuMap)
      → IsAscending is
      → IsSorted m
      → lookup x (add_cpus f is m)
        ≡ (if member x is then some (f x (or_initialized (lookup x m))) else lookup x m)
  unfolding add_cpus
  lookup-add_cpus x [] m a b = refl
  lookup-add_cpus x (i ∷ is) m a b =
      lookup-add_cpus x is (update i (f i) m) (rest_ascends i is a) (update-IsSorted i (f i) m b)
      ∙ ap (λ r. if member x is then some (f x (or_initialized r)) else r)
          (lookup-update x i (f i) m b)
      ∙ elim (ℕ_discrete x i) [
        | yes e ↦
            rw (equal x i e, passed x i is (omega (arith, e)) a)
              (ap (λ k. some (f k (or_initialized (lookup k m)))) (sym e))
        | no ne ↦ rw (unequal x i ne) refl
      ]
    where
      equal : (x i : ℕ) → x ≡ i → (x == i) ≡ true
      equal x i e = ground arith

      unequal : (x i : ℕ) → x ≢ i → (x == i) ≡ false
      unequal x i ne = ground arith

pub compute_cpu_set-IsAscending : (g mask : ℕ) → IsAscending (compute_cpu_set g mask)
unfolding compute_cpu_set
compute_cpu_set-IsAscending g mask = insert_bits-IsAscending 64 0 g mask [] tt
