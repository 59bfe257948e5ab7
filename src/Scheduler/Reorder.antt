-- ===== src/Scheduler/Reorder.antt =====
-- What stays when the entries of a topology are put in another order.
use mathlib.Core.List.{Permᴰ}
use mathlib.Core.List.Permᴰ
use boost_job.Common.{
  ℕ, ◌≡◌, ◌≢◌, refl, sym, ap, subst, ◌∙◌, Option, none, some, List, [], ◌∷◌, ltb, ◌==◌,
  if◌then◌else◌, arith,
}
use boost_job.Topology.{Topo}
use boost_job.Scheduler.{
  Outcome, returned, thrown, aborted, undefined, ◌>>=◌, TopologyMap, read_ids, lookup, max_element,
}
use boost_job.Scheduler.Topologies.{Distinct, AllBelow}
use boost_job.Scheduler.Slots.{lookup-tail}
use boost_job.Scheduler.Same.{head_some, clash}

-- A relation between lists that the exchange of two neighbours keeps holds of all reorderings.
Permᴰ_rec {ℓ κ} :
    {A : Type ℓ} (P : List A → List A → Type κ)
    → P [] []
    → ((a : A) (l m : List A) → P l m → P (a ∷ l) (a ∷ m))
    → ((a b : A) (l : List A) → P (a ∷ b ∷ l) (b ∷ a ∷ l))
    → ((l m n : List A) → P l m → P m n → P l n)
    → (l m : List A) → Permᴰ l m
    → P l m
Permᴰ_rec P nil cons swap trans _ _ Permᴰ.nil = nil
Permᴰ_rec P nil cons swap trans _ _ (Permᴰ.cons {a} {b} {l₁ = l} {l₂ = m} e p) =
    subst (λ b. P (a ∷ l) (b ∷ m)) e (cons a l m (Permᴰ_rec P nil cons swap trans l m p))
Permᴰ_rec P nil cons swap trans _ _ (Permᴰ.swap {a} {b} {a'} {b'} {l} e f) =
    subst (λ x. P (a ∷ b ∷ l) (a' ∷ x ∷ l)) e
      (subst (λ y. P (a ∷ b ∷ l) (y ∷ a ∷ l)) f (swap a b l))
Permᴰ_rec P nil cons swap trans _ _ (Permᴰ.trans {l₁ = l} {l₂ = m} {l₃ = n} p q) =
    trans l m n (Permᴰ_rec P nil cons swap trans l m p) (Permᴰ_rec P nil cons swap trans m n q)

-- What a reordering keeps: the lookups, the largest id, and what a ready topology has.
abbrev pub SameLookups : TopologyMap → TopologyMap → Type 0
SameLookups xs ys = Distinct xs → Distinct ys × ((k : ℕ) → lookup k xs ≡ lookup k ys)

swap_lookups :
    (i j : ℕ) (t u : Topo) (l : TopologyMap)
    → SameLookups ((i, t) ∷ (j, u) ∷ l) ((j, u) ∷ (i, t) ∷ l)
swap_lookups i j t u l (new, (newer, d)) = (
  (lookup-tail i j t l apart ∙ newer, (sym (lookup-tail j i u l (λ e. apart (sym e))) ∙ new, d)),
  λ k. either_first k apart,
)
  where
    apart : i ≢ j
    apart e = clash (head_some j u l) (subst (λ k. lookup k ((j, u) ∷ l) ≡ none) e new) refl

    either_first : (k : ℕ) → i ≢ j → lookup k ((i, t) ∷ (j, u) ∷ l) ≡ lookup k ((j, u) ∷ (i, t) ∷ l)
    either_first k ne = ground arith

pub lookup-Permᴰ : (xs ys : TopologyMap) → Permᴰ xs ys → SameLookups xs ys
lookup-Permᴰ =
    Permᴰ_rec SameLookups (λ d. (tt, λ k. refl))
      (λ (i, t) l m ih (new, d).
        let (d', same) = ih d in
        ((sym (same i) ∙ new, d'), λ k. ap (λ o. if k == i then some t else o) (same k)))
      (λ (i, t) (j, u) l d. swap_lookups i j t u l d)
      (λ l m n f g d.
        let (d', same) = f d in let (d'', same') = g d' in (d'', λ k. same k ∙ same' k))

swap_max :
    (best i j : ℕ) (t u : Topo) (l : TopologyMap)
    → max_element best ((i, t) ∷ (j, u) ∷ l) ≡ max_element best ((j, u) ∷ (i, t) ∷ l)
unfolding max_element
swap_max best i j t u l = ground arith

pub max_element-Permᴰ :
    (xs ys : TopologyMap) → Permᴰ xs ys → (best : ℕ) → max_element best xs ≡ max_element best ys
unfolding max_element
max_element-Permᴰ =
    Permᴰ_rec (λ xs ys. (best : ℕ) → max_element best xs ≡ max_element best ys) (λ best. refl)
      (λ (i, t) l m ih best.
        ap (λ n. if ltb best i then n else max_element best l) (ih i)
        ∙ ap (λ n. if ltb best i then max_element i m else n) (ih best))
      (λ (i, t) (j, u) l best. swap_max best i j t u l) (λ l m n f g best. f best ∙ g best)

pub AllBelow-Permᴰ : (b : ℕ) (xs ys : TopologyMap) → Permᴰ xs ys → AllBelow b xs → AllBelow b ys
AllBelow-Permᴰ b =
    Permᴰ_rec (λ xs ys. AllBelow b xs → AllBelow b ys) (λ h. h)
      (λ (i, t) l m ih (lt, h). (lt, ih h)) (λ (i, t) (j, u) l (x, (y, h)). (y, (x, h)))
      (λ l m n f g h. g (f h))

-- The ids are read from one entry after the other.
map_in : TopologyMap → Outcome TopologyMap → TopologyMap
map_in d (returned xs) = xs
map_in d _ = d

abbrev read_with : Topo → Option ℕ → Outcome TopologyMap → Outcome TopologyMap
read_with t none r = undefined
read_with t (some i) r = r >>= λ xs. returned ((i, t) ∷ xs)

uncons :
    (t : Topo) (o : Option ℕ) (r : Outcome TopologyMap) (xs : TopologyMap)
    → read_with t o r ≡ returned xs
    → (i : ℕ) × (rest : TopologyMap) × (o ≡ some i) × (r ≡ returned rest) × (xs ≡ (i, t) ∷ rest)
unfolding map_in
uncons t none r xs e = absurd cc
uncons t (some i) (returned rest) xs e = (i, rest, refl, refl, sym (ap (map_in xs) e))
uncons t (some i) (thrown x) xs e = absurd cc
uncons t (some i) aborted xs e = absurd cc
uncons t (some i) undefined xs e = absurd cc

read_ids-read_with :
    (t : Topo) (ts : List Topo) → read_ids (t ∷ ts) ≡ read_with t t.processor_id (read_ids ts)
unfolding read_ids
read_ids-read_with t ts = with_id t.processor_id
  where
    with_id :
        (o : Option ℕ)
        → elim o [ none ↦ undefined | some i ↦ read_ids ts >>= λ xs. returned ((i, t) ∷ xs) ]
          ≡ read_with t o (read_ids ts)
    with_id none = refl
    with_id (some i) = refl

read_ids-cons :
    (t : Topo) (ts : List Topo) (i : ℕ) (xs : TopologyMap)
    → t.processor_id ≡ some i
    → read_ids ts ≡ returned xs
    → read_ids (t ∷ ts) ≡ returned ((i, t) ∷ xs)
read_ids-cons t ts i xs e r =
    read_ids-read_with t ts ∙ ap (λ o. read_with t o (read_ids ts)) e ∙ ap (read_with t (some i)) r

abbrev pub SameIds : List Topo → List Topo → Type 0
SameIds ts us =
    (xs : TopologyMap)
    → read_ids ts ≡ returned xs
    → (ys : TopologyMap) × (read_ids us ≡ returned ys) × Permᴰ xs ys

cons_ids : (t : Topo) (ts us : List Topo) → SameIds ts us → SameIds (t ∷ ts) (t ∷ us)
cons_ids t ts us ih xs e =
    let (i, rest, id, read, split) =
      uncons t t.processor_id (read_ids ts) xs (sym (read_ids-read_with t ts) ∙ e) in
    let (ys, read', p) = ih rest read in
    (
      (i, t) ∷ ys,
      read_ids-cons t us i ys id read',
      subst (λ l. Permᴰ l ((i, t) ∷ ys)) (sym split) (Permᴰ.cons refl p),
    )

swap_ids : (t u : Topo) (ts : List Topo) → SameIds (t ∷ u ∷ ts) (u ∷ t ∷ ts)
swap_ids t u ts xs e =
    let (i, rest, id, read, split) =
      uncons t t.processor_id (read_ids (u ∷ ts)) xs (sym (read_ids-read_with t (u ∷ ts)) ∙ e) in
    let (j, last, id', read', split') =
      uncons u u.processor_id (read_ids ts) rest (sym (read_ids-read_with u ts) ∙ read) in
    (
      (j, u) ∷ (i, t) ∷ last,
      read_ids-cons u (t ∷ ts) j ((i, t) ∷ last) id' (read_ids-cons t ts i last id read'),
      subst (λ l. Permᴰ l ((j, u) ∷ (i, t) ∷ last)) (sym (split ∙ ap (λ l. (i, t) ∷ l) split'))
          (Permᴰ.swap refl refl),
    )

pub read_ids-Permᴰ : (ts us : List Topo) → Permᴰ ts us → SameIds ts us
read_ids-Permᴰ =
    Permᴰ_rec SameIds (λ xs e. (xs, e, Permᴰ.refl xs)) cons_ids swap_ids
      (λ l m n f g xs e.
        let (ys, read, p) = f xs e in
        let (zs, read', q) = g ys read in (zs, read', Permᴰ.trans p q))
