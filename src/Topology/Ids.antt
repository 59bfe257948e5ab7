-- ===== src/Topology/Ids.antt =====
-- `std::set< uint32_t >` as a strictly ascending list.
use boost_job.Common.{
  ℕ, suc, ◌<◌, ◌≡◌, refl, Bool, false, not, ◌&&◌, ◌||◌, List, [], ◌∷◌, arith, ltb, ◌==◌,
  if◌then◌else◌,
}

unfoldable pub insert : ℕ → List ℕ → List ℕ
insert x [] = x ∷ []
insert x (y ∷ ys) = if ltb x y then x ∷ y ∷ ys else if x == y then y ∷ ys else y ∷ insert x ys

unfoldable pub erase : ℕ → List ℕ → List ℕ
erase x [] = []
erase x (y ∷ ys) = if x == y then ys else y ∷ erase x ys

abbrev pub member : ℕ → List ℕ → Bool
member x [] = false
member x (y ∷ ys) = (x == y) || member x ys

abbrev pub Above : ℕ → List ℕ → Type 0
Above b [] = Unit {0}
Above b (y ∷ ys) = (b < y) × Above y ys

-- Strictly ascending.
abbrev pub IsAscending : List ℕ → Type 0
IsAscending [] = Unit {0}
IsAscending (y ∷ ys) = Above y ys

pub member-insert : (y x : ℕ) (xs : List ℕ) → member y (insert x xs) ≡ ((y == x) || member y xs)
unfolding insert
member-insert y x [] = refl
member-insert y x (z ∷ zs) = ground (arith, member-insert y x zs)

insert-Above : (b x : ℕ) (xs : List ℕ) → b < x → Above b xs → Above b (insert x xs)
unfolding insert
insert-Above b x [] h a = (h, tt)
insert-Above b x (y ∷ ys) h a = ground (arith, insert-Above y x ys)

pub insert-IsAscending : (x : ℕ) (xs : List ℕ) → IsAscending xs → IsAscending (insert x xs)
unfolding insert
insert-IsAscending x [] a = tt
insert-IsAscending x (y ∷ ys) a = ground (arith, insert-Above y x ys)

not_member : (b y : ℕ) (xs : List ℕ) → Above b xs → y < suc b → member y xs ≡ false
not_member b y [] a h = refl
not_member b y (x ∷ xs) a h = ground (arith, not_member x y xs)

tail-IsAscending : (y : ℕ) (ys : List ℕ) → IsAscending (y ∷ ys) → IsAscending ys
tail-IsAscending y [] a = tt
tail-IsAscending y (z ∷ zs) a = a.1

pub member-erase :
    (y x : ℕ) (xs : List ℕ) → IsAscending xs → member y (erase x xs) ≡ (not (y == x) && member y xs)
unfolding erase
member-erase y x [] a = ground arith
member-erase y x (z ∷ zs) a =
    ground (arith, member-erase y x zs (tail-IsAscending z zs a), not_member z y zs a)
