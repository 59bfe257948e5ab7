-- ===== src/Common/Members.antt =====
-- What holds of all members of a list, which keys a list has, and lists with a member taken out.
use Prim.Native.Nat.{ℕ, ◌+◌, ◌≤◌}
use native.Mathlib.Decide.{dec_le}
use mathlib.Core.Path.{◌≡◌, refl, ap}
use mathlib.Core.Logic.{◌⊎◌, inl, inr}
use mathlib.Core.List.{List, [], ◌∷◌, ◌++◌}
use native.Mathlib.Omega.{arith}
use boost_job.Common.Lists.{total}

module _ {ℓ κ} {A : Type ℓ} (P : A → Type κ) where
  abbrev pub All : List A → Type κ
  All [] = Unit {κ}
  All (x ∷ xs) = P x × All xs

  pub All-append : (xs ys : List A) → All xs → All ys → All (xs ++ ys)
  All-append [] ys h k = k
  All-append (x ∷ xs) ys (a, h) k = (a, All-append xs ys h k)

  pub All-put :
      (before : List A) (x : A) (after : List A)
      → P x
      → All (before ++ after)
      → All (before ++ x ∷ after)
  All-put [] x after p h = (p, h)
  All-put (b ∷ before) x after p (q, h) = (q, All-put before x after p h)

  pub All-taken :
      (before : List A) (x : A) (after : List A)
      → All (before ++ x ∷ after)
      → P x × All (before ++ after)
  All-taken [] x after (a, h) = (a, h)
  All-taken (b ∷ before) x after (a, h) = let (y, z) = All-taken before x after h in (y, (a, z))

pub All_map {ℓ κ μ} :
    {A : Type ℓ} (P : A → Type κ) (Q : A → Type μ) (xs : List A)
    → ((a : A) → P a → Q a)
    → All P xs
    → All Q xs
All_map P Q [] f h = tt
All_map P Q (x ∷ xs) f (a, h) = (f x a, All_map P Q xs f h)

module _ {ℓ} {A : Type ℓ} (key : A → ℕ) where
  abbrev pub HasKey : ℕ → List A → Type 0
  HasKey i [] = ⊥
  HasKey i (x ∷ xs) = (key x ≡ i) ⊎ HasKey i xs

  pub HasKey-append_left : (i : ℕ) (xs ys : List A) → HasKey i xs → HasKey i (xs ++ ys)
  HasKey-append_left i [] ys h = absurd h
  HasKey-append_left i (x ∷ xs) ys (inl e) = inl e
  HasKey-append_left i (x ∷ xs) ys (inr h) = inr (HasKey-append_left i xs ys h)

  pub HasKey-append_right : (i : ℕ) (xs ys : List A) → HasKey i ys → HasKey i (xs ++ ys)
  HasKey-append_right i [] ys h = h
  HasKey-append_right i (x ∷ xs) ys h = inr (HasKey-append_right i xs ys h)

  pub HasKey-taken :
      (i : ℕ) (before : List A) (x : A) (after : List A)
      → HasKey i (before ++ x ∷ after)
      → (key x ≡ i) ⊎ HasKey i (before ++ after)
  HasKey-taken i [] x after h = h
  HasKey-taken i (b ∷ before) x after (inl e) = inr (inl e)
  HasKey-taken i (b ∷ before) x after (inr h) = elim (HasKey-taken i before x after h) [
    | inl e ↦ inl e
    | inr k ↦ inr (inr k)
  ]

  -- No member has a larger key.
  abbrev pub AtMost : ℕ → List A → Type 0
  AtMost k xs = All (λ x. key x ≤ k) xs

  pub AtMost-HasKey : (k i : ℕ) (xs : List A) → AtMost k xs → HasKey i xs → i ≤ k
  AtMost-HasKey k i [] h m = absurd m
  AtMost-HasKey k i (x ∷ xs) (a, h) (inl e) = omega (arith, a, e)
  AtMost-HasKey k i (x ∷ xs) (a, h) (inr m) = AtMost-HasKey k i xs h m

  pub largest :
      (x : A) (xs : List A)
      → (before : List A) × (y : A) × (after : List A) × (x ∷ xs ≡ before ++ y ∷ after)
        × AtMost (key y) (x ∷ xs)
  largest x [] = ([], x, [], refl, (omega arith, tt))
  largest x (z ∷ zs) =
      let (before, y, after, e, h) = largest z zs in
      elim (dec_le (key x) (key y)) [
        | yes le ↦ (x ∷ before, y, after, ap (λ l. x ∷ l) e, (le, h))
        | no gt ↦ (
          [],
          x,
          z ∷ zs,
          refl,
          (
            omega arith,
            All_map (λ a. key a ≤ key y) (λ a. key a ≤ key x) (z ∷ zs)
                (λ a le. omega (arith, le, gt)) h,
          ),
        )
      ]

module _ {ℓ} {A : Type ℓ} (w : A → ℕ) where
  pub total-append : (xs ys : List A) → total w (xs ++ ys) ≡ total w xs + total w ys
  unfolding total
  total-append [] ys = omega arith
  total-append (x ∷ xs) ys = omega (arith, total-append xs ys)

  pub total_taken :
      (before : List A) (x : A) (after : List A)
      → total w (before ++ x ∷ after) ≡ w x + total w (before ++ after)
  unfolding total
  total_taken [] x after = refl
  total_taken (b ∷ before) x after = omega (arith, total_taken before x after)
