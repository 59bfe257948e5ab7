-- ===== src/Common/Lists.antt =====
-- Lists measured and indexed by native numbers, under the library's names.
use Prim.Native.Nat.{ℕ, zero, suc, ◌+◌, ◌<◌, ◌≤◌}
use native.Mathlib.Decide.{ℕ_discrete}
use mathlib.Core.Path.{◌≡◌, refl, ap}
use mathlib.Core.Logic.{◌≢◌}
use mathlib.Core.List.{List, [], ◌∷◌, ◌++◌}
use mathlib.Core.Option.{Option, none, some}
use native.Mathlib.Omega.{arith}

module _ {ℓ} {A : Type ℓ} where
  abbrev pub length : List A → ℕ
  length [] = 0
  length (x ∷ xs) = suc (length xs)

  abbrev pub get_elem? : List A → ℕ → Option A
  get_elem? [] i = none
  get_elem? (x ∷ xs) zero = some x
  get_elem? (x ∷ xs) (suc i) = get_elem? xs i

  -- A write out of bounds changes nothing.
  abbrev pub set : List A → ℕ → A → List A
  set [] i v = []
  set (x ∷ xs) zero v = v ∷ xs
  set (x ∷ xs) (suc i) v = x ∷ set xs i v

  abbrev pub replicate : ℕ → A → List A
  replicate zero a = []
  replicate (suc n) a = a ∷ replicate n a

  pub length-append : (xs ys : List A) → length (xs ++ ys) ≡ length xs + length ys
  length-append [] ys = omega arith
  length-append (x ∷ xs) ys = omega (arith, length-append xs ys)

  pub length-set : (xs : List A) (i : ℕ) (v : A) → length (set xs i v) ≡ length xs
  length-set [] i v = refl
  length-set (x ∷ xs) zero v = refl
  length-set (x ∷ xs) (suc i) v = ap suc (length-set xs i v)

  pub length-replicate : (n : ℕ) (a : A) → length (replicate n a) ≡ n
  length-replicate zero a = refl
  length-replicate (suc n) a = ap suc (length-replicate n a)

  pub get_elem?-set_self :
      (xs : List A) (i : ℕ) (v : A) → i < length xs → get_elem? (set xs i v) i ≡ some v
  get_elem?-set_self [] i v h = elim h [ ]
  get_elem?-set_self (x ∷ xs) zero v h = refl
  get_elem?-set_self (x ∷ xs) (suc i) v h = get_elem?-set_self xs i v (omega arith)

  pub get_elem?-set_ne :
      (xs : List A) (i j : ℕ) (v : A) → i ≢ j → get_elem? (set xs i v) j ≡ get_elem? xs j
  get_elem?-set_ne [] i j v h = refl
  get_elem?-set_ne (x ∷ xs) zero zero v h = absurd (h refl)
  get_elem?-set_ne (x ∷ xs) zero (suc j) v h = refl
  get_elem?-set_ne (x ∷ xs) (suc i) zero v h = refl
  get_elem?-set_ne (x ∷ xs) (suc i) (suc j) v h = get_elem?-set_ne xs i j v (λ e. h (ap suc e))

  pub get_elem?-replicate : (n i : ℕ) (a : A) → i < n → get_elem? (replicate n a) i ≡ some a
  get_elem?-replicate zero i a h = absurd (omega arith)
  get_elem?-replicate (suc n) zero a h = refl
  get_elem?-replicate (suc n) (suc i) a h = get_elem?-replicate n i a (omega arith)

-- The sum of a weight over a list.
module _ {ℓ} {A : Type ℓ} (w : A → ℕ) where
  unfoldable pub total : List A → ℕ
  total [] = 0
  total (x ∷ xs) = w x + total xs

  pub total-set :
      (xs : List A) (i : ℕ) (a b : A)
      → get_elem? xs i ≡ some a
      → total (set xs i b) + w a ≡ total xs + w b
  unfolding total
  total-set [] i a b e = absurd (none_some e)
    where
      none_some : none ≡ some a → ⊥
      none_some e = cc
  total-set (x ∷ xs) zero a b e = omega (arith, ap weight e)
    where
      weight : Option A → ℕ
      weight none = 0
      weight (some y) = w y
  total-set (x ∷ xs) (suc i) a b e = omega (arith, total-set xs i a b e)

  pub total-le_length : ((a : A) → w a ≤ 1) → (xs : List A) → total xs ≤ length xs
  unfolding total
  total-le_length small [] = omega arith
  total-le_length small (x ∷ xs) = omega (arith, small x, total-le_length small xs)

  -- A member counts for at least its own weight.
  pub get_elem?-le-total : (xs : List A) (i : ℕ) (a : A) → get_elem? xs i ≡ some a → w a ≤ total xs
  unfolding total
  get_elem?-le-total [] i a e = absurd (none_some e)
    where
      none_some : none ≡ some a → ⊥
      none_some e = cc
  get_elem?-le-total (x ∷ xs) zero a e = omega (arith, ap weight e)
    where
      weight : Option A → ℕ
      weight none = 0
      weight (some y) = w y
  get_elem?-le-total (x ∷ xs) (suc i) a e = omega (arith, get_elem?-le-total xs i a e)

  -- A total below the length leaves a member of weight zero.
  pub light_member :
      (xs : List A)
      → total xs < length xs
      → (i : ℕ) × (a : A) × (get_elem? xs i ≡ some a) × (w a ≡ 0)
  unfolding total
  light_member [] h = absurd (omega arith)
  light_member (x ∷ xs) h = elim (ℕ_discrete (w x) 0) [
    | yes z ↦ (0, x, refl, z)
    | no nz ↦ let (i, a, e, z) = light_member xs (omega arith) in (suc i, a, e, z)
  ]

module _ {ℓ} {A : Type ℓ} where
  pub get_elem?-lt-length : (xs : List A) (i : ℕ) (a : A) → get_elem? xs i ≡ some a → i < length xs
  get_elem?-lt-length [] i a e = absurd cc
  get_elem?-lt-length (x ∷ xs) zero a e = omega arith
  get_elem?-lt-length (x ∷ xs) (suc i) a e = omega (arith, get_elem?-lt-length xs i a e)

  pub append_assoc : (xs ys zs : List A) → (xs ++ ys) ++ zs ≡ xs ++ (ys ++ zs)
  append_assoc [] ys zs = refl
  append_assoc (x ∷ xs) ys zs = ap (λ t. x ∷ t) (append_assoc xs ys zs)

  pub get_elem?-le-length : (xs : List A) (i : ℕ) → get_elem? xs i ≡ none → length xs ≤ i
  get_elem?-le-length [] i e = omega arith
  get_elem?-le-length (x ∷ xs) zero e = absurd cc
  get_elem?-le-length (x ∷ xs) (suc i) e = omega (arith, get_elem?-le-length xs i e)
