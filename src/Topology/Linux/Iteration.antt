-- ===== src/Topology/Linux/Iteration.antt =====
-- `directory_iterator` of src/linux/topology.cpp as a loop uses it: `++`, the comparison with the
-- end, and `*`.
use boost_job.Common.{
  ℕ, zero, suc, ◌<◌, ◌≡◌, refl, sym, ap, ◌∙◌, Bool, true, false, Option, none, some, List, [], ◌∷◌,
  length, arith,
}
use boost_job.Text.{Bytes, Result, ok, invalid_argument, out_of_range, diverges, undefined, ◌>>=◌}
use boost_job.Topology.Linux.Scan.{DirectoryIterator, eval_, seek}

-- `i == e` for an iterator that stands behind the last entry.
unfoldable pub is_end : DirectoryIterator → Bool
is_end i = elim i.rest [ [] ↦ true | name ∷ names ↦ false ]

-- The loop of `operator++`, where `idx_` is written only for a match.
unfoldable pub seek_after : Option ℕ → List Bytes → Result DirectoryIterator
seek_after idx [] = ok (record { rest = []; idx = idx })
seek_after idx (name ∷ names) = eval_ name >>= λ r. elim r [
  | none ↦ seek_after idx names
  | some n ↦ ok (record { rest = name ∷ names; idx = some n })
]

-- `operator++`; at the end it has no meaning.
unfoldable pub increment : DirectoryIterator → Result DirectoryIterator
unfolding seek_after
increment i = elim i.rest [ [] ↦ undefined | name ∷ names ↦ seek_after i.idx names ]

-- `i++`: the iterator before, and the one after.
unfoldable pub post_increment : DirectoryIterator → Result (DirectoryIterator × DirectoryIterator)
unfolding increment
post_increment i = increment i >>= λ j. ok (i, j)

-- `for ( ; i != e; ++i)`, with the numbers that `*i` yields.
unfoldable pub visited : ℕ → DirectoryIterator → Result (List (Option ℕ))
unfolding is_end increment
visited zero i = diverges
visited (suc fuel) i =
    let rest = increment i >>= λ j. visited fuel j >>= λ xs. ok (i.idx ∷ xs) in
    elim (is_end i) [ true ↦ ok [] | false ↦ rest ]

-- The numbers of all names that match, in their order.
abbrev pub matches : List Bytes → Result (List (Option ℕ))
matches [] = ok []
matches (name ∷ names) = eval_ name >>= λ r. elim r [
  | none ↦ matches names
  | some n ↦ matches names >>= λ xs. ok (some n ∷ xs)
]

bind_assoc :
    {A B C : Type 0} (r : Result A) (f : A → Result B) (g : B → Result C)
    → (r >>= f >>= g) ≡ (r >>= λ x. f x >>= g)
bind_assoc (ok a) f g = refl
bind_assoc invalid_argument f g = refl
bind_assoc out_of_range f g = refl
bind_assoc diverges f g = refl
bind_assoc undefined f g = refl

bind_same :
    {A B : Type 0} (r : Result A) (f g : A → Result B)
    → ((x : A) → f x ≡ g x)
    → (r >>= f) ≡ (r >>= g)
bind_same (ok a) f g h = h a
bind_same invalid_argument f g h = refl
bind_same out_of_range f g h = refl
bind_same diverges f g h = refl
bind_same undefined f g h = refl

module _ (name : Bytes) (names : List Bytes) (fuel : ℕ) (idx : Option ℕ) where
  found : Option ℕ → Result DirectoryIterator
  found none = seek_after idx names
  found (some n) = ok (record { rest = name ∷ names; idx = some n })

  numbers : Option ℕ → Result (List (Option ℕ))
  numbers none = matches names
  numbers (some n) = matches names >>= λ xs. ok (some n ∷ xs)

  each_name :
      (seek_after idx names >>= visited (suc fuel)) ≡ matches names
      → ((n : ℕ) → (seek_after (some n) names >>= visited fuel) ≡ matches names)
      → (r : Option ℕ) → (found r >>= visited (suc fuel)) ≡ numbers r
  unfolding found numbers visited increment is_end
  each_name same rest none = same
  each_name same rest (some n) =
      sym (bind_assoc (seek_after (some n) names) (visited fuel) (λ xs. ok (some n ∷ xs)))
      ∙ ap (λ q. q >>= λ xs. ok (some n ∷ xs)) (rest n)

seek_after-matches :
    (names : List Bytes) (fuel : ℕ) (idx : Option ℕ)
    → length names < fuel
    → (seek_after idx names >>= visited fuel) ≡ matches names
unfolding seek_after visited found numbers
seek_after-matches names zero idx h = absurd (omega arith)
seek_after-matches [] (suc fuel) idx h = refl
seek_after-matches (name ∷ names) (suc fuel) idx h =
    bind_assoc (eval_ name) (found name names fuel idx) (visited (suc fuel))
    ∙ bind_same (eval_ name) (λ r. found name names fuel idx r >>= visited (suc fuel))
        (numbers name names fuel idx)
        (each_name name names fuel idx (seek_after-matches names (suc fuel) idx (omega arith))
          (λ n. seek_after-matches names fuel (some n) (omega arith)))

seek-seek_after : (names : List Bytes) → seek names ≡ seek_after none names
unfolding seek seek_after
seek-seek_after [] = refl
seek-seek_after (name ∷ names) = bind_same (eval_ name) _ _ (each (seek-seek_after names))
  where
    each :
        seek names ≡ seek_after none names
        → (r : Option ℕ)
        → elim r as (λ _. Result DirectoryIterator) [
          | none ↦ seek names
          | some n ↦ ok (record { rest = name ∷ names; idx = some n })
        ]
          ≡ elim r as (λ _. Result DirectoryIterator) [
            | none ↦ seek_after none names
            | some n ↦ ok (record { rest = name ∷ names; idx = some n })
          ]
    each same none = same
    each same (some n) = refl

-- A loop over a directory, with fuel above the number of its entries, yields the numbers of the names
-- that match and no others, in the order of the directory, and throws what `std::stoul` throws on
-- the first number that is too large.
pub seek-visited :
    (names : List Bytes) (fuel : ℕ)
    → length names < fuel
    → (seek names >>= visited fuel) ≡ matches names
seek-visited names fuel h =
    ap (λ r. r >>= visited fuel) (seek-seek_after names) ∙ seek_after-matches names fuel none h
