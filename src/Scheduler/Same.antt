-- ===== src/Scheduler/Same.antt =====
-- Maps and vectors with the same entries are the same.
use boost_job.Common.{
  ℕ, suc, ◌≤◌, ◌<◌, ◌≡◌, refl, sym, ap, subst, ◌∙◌, Option, none, some, [], ◌∷◌, length, get_elem?,
  ◌==◌, if◌then◌else◌, Bool-cases, inl, inr, true, dec_lt, arith,
}
use boost_job.Topology.{Topo}
use boost_job.Scheduler.{WorkerThread, Slots, TopologyMap, lookup}
use boost_job.Scheduler.Topologies.{Above, IsAscending, Above-lookup}

-- Two maps in the order of their keys with the same entries are the same.
head_none :
    (i j : ℕ) (t : Topo) (m : TopologyMap) → i < j → Above j m → lookup i ((j, t) ∷ m) ≡ none
head_none i j t m h a = ground (arith, Above-lookup j i m)

pub head_some : (i : ℕ) (t : Topo) (m : TopologyMap) → lookup i ((i, t) ∷ m) ≡ some t
head_some i t m = ground arith

topo_in : Topo → Option Topo → Topo
topo_in d none = d
topo_in d (some t) = t

same_tail :
    (i : ℕ) (t u : Topo) (m n : TopologyMap)
    → Above i m
    → Above i n
    → ((k : ℕ) → lookup k ((i, t) ∷ m) ≡ lookup k ((i, u) ∷ n))
    → (k : ℕ) → lookup k m ≡ lookup k n
same_tail i t u m n a b h k = elim (Bool-cases (k == i)) [
  | inl e ↦ Above-lookup i k m a (at e) ∙ sym (Above-lookup i k n b (at e))
  | inr e ↦
      ap (λ c. if c then some t else lookup k m) (sym e)
      ∙ h k
      ∙ ap (λ c. if c then some u else lookup k n) e
]
  where
    at : (k == i) ≡ true → k ≤ i
    at e = ground arith

Above-IsAscending : (b : ℕ) (m : TopologyMap) → Above b m → IsAscending m
Above-IsAscending b [] a = tt
Above-IsAscending b ((j, u) ∷ m) a = a.1

pub clash : {t : Topo} {o p : Option Topo} → o ≡ some t → p ≡ none → o ≡ p → ⊥
clash a b e = cc

pub TopologyMap_ext :
    (m n : TopologyMap)
    → IsAscending m
    → IsAscending n
    → ((k : ℕ) → lookup k m ≡ lookup k n)
    → m ≡ n
unfolding topo_in
TopologyMap_ext [] [] a b h = refl
TopologyMap_ext [] ((j, u) ∷ n) a b h = absurd (clash (head_some j u n) refl (sym (h j)))
TopologyMap_ext ((i, t) ∷ m) [] a b h = absurd (clash (head_some i t m) refl (h i))
TopologyMap_ext ((i, t) ∷ m) ((j, u) ∷ n) a b h = elim (dec_lt i j) [
  | yes lt ↦ absurd (clash (head_some i t m) (head_none i j u n lt b) (h i))
  | no ge ↦ elim (dec_lt j i) [
    | yes lt ↦ absurd (clash (head_some j u n) (head_none j i t m lt a) (sym (h j)))
    | no le ↦
        let same : j ≡ i = omega arith in
        let b' = subst (λ k. Above k n) same b in
        let h' = subst (λ k. (x : ℕ) → lookup x ((i, t) ∷ m) ≡ lookup x ((k, u) ∷ n)) same h in
        let value : t ≡ u = ap (topo_in t) (sym (head_some i t m) ∙ h' i ∙ head_some i u n) in
        let rest =
          TopologyMap_ext m n (Above-IsAscending i m a) (Above-IsAscending i n b')
            (same_tail i t u m n a b' h') in
        rw (same, value, rest) refl
  ]
]

-- Two vectors of the same size with the same slots are the same.
pub Slots_ext :
    (ws vs : Slots) → length ws ≡ length vs → ((k : ℕ) → get_elem? ws k ≡ get_elem? vs k) → ws ≡ vs
Slots_ext [] [] e h = refl
Slots_ext [] (v ∷ vs) e h = absurd (omega (arith, e))
Slots_ext (w ∷ ws) [] e h = absurd (omega (arith, e))
Slots_ext (w ∷ ws) (v ∷ vs) e h =
    let first : w ≡ v = ap (slot_in w) (h 0) in
    let rest : ws ≡ vs = Slots_ext ws vs (omega (arith, e)) (λ k. h (suc k)) in
    rw (first, rest) refl
  where
    slot_in : Option WorkerThread → Option (Option WorkerThread) → Option WorkerThread
    slot_in d none = d
    slot_in d (some x) = x
