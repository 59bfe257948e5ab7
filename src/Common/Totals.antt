-- ===== src/Common/Totals.antt =====
-- Sums of weights over lists that grow in the middle, and over the first elements.
use Prim.Native.Nat.{ℕ, zero, suc, ◌+◌, ◌*◌, ◌≤◌, ◌<◌}
use mathlib.Core.Path.{◌≡◌, refl, ap}
use mathlib.Core.List.{List, [], ◌∷◌, map}
use mathlib.Core.Option.{Option, none, some}
use native.Mathlib.Decide.{dec_lt}
use native.Mathlib.Omega.{arith}
use boost_job.Common.Lists.{length, get_elem?, set, replicate, total}

module _ {ℓ} {A : Type ℓ} where
  -- The new element stands at the given place, or at the end.
  abbrev pub insert_at : ℕ → A → List A → List A
  insert_at zero a xs = a ∷ xs
  insert_at (suc i) a [] = a ∷ []
  insert_at (suc i) a (x ∷ xs) = x ∷ insert_at i a xs

  pub length-insert_at : (i : ℕ) (a : A) (xs : List A) → length (insert_at i a xs) ≡ suc (length xs)
  length-insert_at zero a xs = refl
  length-insert_at (suc i) a [] = refl
  length-insert_at (suc i) a (x ∷ xs) = ap suc (length-insert_at i a xs)

  pub length-map : (f : A → A) (xs : List A) → length (map f xs) ≡ length xs
  length-map f [] = refl
  length-map f (x ∷ xs) = ap suc (length-map f xs)

  pub get_elem?-map :
      (f : A → A) (xs : List A) (i : ℕ) (a : A)
      → get_elem? xs i ≡ some a
      → get_elem? (map f xs) i ≡ some (f a)
  get_elem?-map f [] i a e = absurd cc
  get_elem?-map f (x ∷ xs) zero a e = ap over e
    where
      over : Option A → Option A
      over none = none
      over (some y) = some (f y)
  get_elem?-map f (x ∷ xs) (suc i) a e = get_elem?-map f xs i a e

  module _ (w : A → ℕ) where
    pub total-insert_at :
        (i : ℕ) (a : A) (xs : List A) → total w (insert_at i a xs) ≡ w a + total w xs
    unfolding total
    total-insert_at zero a xs = refl
    total-insert_at (suc i) a [] = refl
    total-insert_at (suc i) a (x ∷ xs) = omega (arith, total-insert_at i a xs)

    pub total-map :
        (f : A → A) → ((a : A) → w (f a) ≡ w a) → (xs : List A) → total w (map f xs) ≡ total w xs
    unfolding total
    total-map f same [] = refl
    total-map f same (x ∷ xs) = omega (arith, same x, total-map f same xs)

    -- A positive sum has a member of positive weight.
    pub heavy_member :
        (xs : List A) → 0 < total w xs → (i : ℕ) × (a : A) × (get_elem? xs i ≡ some a) × (0 < w a)
    unfolding total
    heavy_member [] h = absurd (omega arith)
    heavy_member (x ∷ xs) h = elim (dec_lt 0 (w x)) [
      | yes p ↦ (0, x, refl, p)
      | no n ↦ let (i, a, e, p) = heavy_member xs (omega arith) in (suc i, a, e, p)
    ]

    pub total-replicate : (n : ℕ) (a : A) → total w (replicate n a) ≡ n * w a
    unfolding total
    total-replicate zero a = omega arith
    total-replicate (suc n) a = grind (arith, total-replicate n a)

    pub total-map_le :
        (f : A → A) → ((a : A) → w (f a) ≤ w a) → (xs : List A) → total w (map f xs) ≤ total w xs
    unfolding total
    total-map_le f less [] = omega arith
    total-map_le f less (x ∷ xs) = omega (arith, less x, total-map_le f less xs)

    -- The sum over the first `k` elements.
    unfoldable pub total_below : ℕ → List A → ℕ
    total_below zero xs = 0
    total_below (suc k) [] = 0
    total_below (suc k) (x ∷ xs) = w x + total_below k xs

    total_below-nil : (k : ℕ) → total_below k [] ≡ 0
    unfolding total_below
    total_below-nil zero = refl
    total_below-nil (suc k) = refl

    pub total_below-set_le :
        (k : ℕ) (xs : List A) (i : ℕ) (a b : A)
        → get_elem? xs i ≡ some a
        → w b ≤ w a
        → total_below k (set xs i b) ≤ total_below k xs
    unfolding total_below
    total_below-set_le zero xs i a b e h = omega arith
    total_below-set_le (suc k) [] i a b e h = omega arith
    total_below-set_le (suc k) (x ∷ xs) zero a b e h = omega (arith, ap weight e, h)
      where
        weight : Option A → ℕ
        weight none = 0
        weight (some y) = w y
    total_below-set_le (suc k) (x ∷ xs) (suc i) a b e h =
        omega (arith, total_below-set_le k xs i a b e h)

    pub total_below-map_le :
        (k : ℕ) (f : A → A)
        → ((a : A) → w (f a) ≤ w a)
        → (xs : List A) → total_below k (map f xs) ≤ total_below k xs
    unfolding total_below
    total_below-map_le zero f less xs = omega arith
    total_below-map_le (suc k) f less [] = omega arith
    total_below-map_le (suc k) f less (x ∷ xs) =
        omega (arith, less x, total_below-map_le k f less xs)

    -- An insertion among the first elements moves the bound.
    pub total_below-insert_before :
        (k i : ℕ) (a : A) (xs : List A)
        → i ≤ k
        → total_below (suc k) (insert_at i a xs) ≤ w a + total_below k xs
    unfolding total_below
    total_below-insert_before k zero a xs h = omega arith
    total_below-insert_before zero (suc i) a xs h = absurd (omega arith)
    total_below-insert_before (suc k) (suc i) a [] h = omega arith
    total_below-insert_before (suc k) (suc i) a (x ∷ xs) h =
        omega (arith, total_below-insert_before k i a xs (omega arith))

    pub total_below-insert_behind :
        (k i : ℕ) (a : A) (xs : List A)
        → k < i
        → total_below k (insert_at i a xs) ≤ w a + total_below k xs
    unfolding total_below
    total_below-insert_behind zero i a xs h = omega arith
    total_below-insert_behind (suc k) zero a xs h = absurd (omega arith)
    total_below-insert_behind (suc k) (suc i) a [] h = omega (arith, total_below-nil k)
    total_below-insert_behind (suc k) (suc i) a (x ∷ xs) h =
        omega (arith, total_below-insert_behind k i a xs (omega arith))

    pub total_below-suc :
        (k : ℕ) (xs : List A) (a : A)
        → get_elem? xs k ≡ some a
        → total_below (suc k) xs ≡ total_below k xs + w a
    unfolding total_below
    total_below-suc zero [] a e = absurd cc
    total_below-suc (suc k) [] a e = absurd cc
    total_below-suc zero (x ∷ xs) a e = omega (arith, ap weight e)
      where
        weight : Option A → ℕ
        weight none = 0
        weight (some y) = w y
    total_below-suc (suc k) (x ∷ xs) a e = omega (arith, total_below-suc k xs a e)

    pub total_below-all : (k : ℕ) (xs : List A) → length xs ≤ k → total_below k xs ≡ total w xs
    unfolding total_below total
    total_below-all k [] h = total_below-nil k
    total_below-all zero (x ∷ xs) h = absurd (omega arith)
    total_below-all (suc k) (x ∷ xs) h = omega (arith, total_below-all k xs (omega arith))
