-- ===== src/Topology/Linux/Ranges.antt =====
-- `ids_from_line`: a line such as "0-3,8" as the set of the numbers that it names.
use boost_job.Common.{
  ℕ, zero, suc, ◌+◌, ◌%◌, ◌^◌, ◌≡◌, ◌≢◌, false, List, [], ◌∷◌, ◌++◌, leb, if◌then◌else◌,
}
use boost_job.Text.{Bytes, Result, ok, diverges, undefined, ◌>>=◌, is_space, stoul}
use boost_job.Topology.Ids.{insert}

abbrev pub comma : ℕ
comma = 44

abbrev pub dash : ℕ
dash = 45

-- No entry of a text is `c`.
abbrev pub Without : ℕ → Bytes → Type 0
Without c [] = Unit {0}
Without c (b ∷ s) = (b ≢ c) × Without c s

abbrev pub NoSpace : Bytes → Type 0
NoSpace [] = Unit {0}
NoSpace (b ∷ s) = (is_space b ≡ false) × NoSpace s

-- What the function takes from boost::algorithm: `split` at one character, and `trim`.
pub record StringAlgorithms : Type 0 where
  pub split : ℕ → Bytes → List Bytes
  pub trim : Bytes → Bytes

-- Their documented behaviour: `split` keeps empty parts, and `trim` removes blanks at the ends.
pub record IsStringAlgorithms (al : StringAlgorithms) : Type 0 where
  pub split_last : (c : ℕ) (s : Bytes) → Without c s → al.split c s ≡ s ∷ []
  pub split_more :
      (c : ℕ) (s rest : Bytes) → Without c s → al.split c (s ++ c ∷ rest) ≡ s ∷ al.split c rest
  pub trim_none : (s : Bytes) → NoSpace s → al.trim s ≡ s

abbrev pub u32 : ℕ → ℕ
u32 n = n % 2 ^ 32

-- `for ( uint32_t i = first; i <= last; ++i)`, with fuel.
unfoldable pub insert_range : ℕ → ℕ → ℕ → List ℕ → Result (List ℕ)
insert_range zero i last ids = diverges
insert_range (suc fuel) i last ids =
    let rest = insert_range fuel (u32 (i + 1)) last (insert i ids) in
    if leb i last then rest else ok ids

-- The last part, for `* v2.rbegin()`.
last_part : Bytes → List Bytes → Bytes
last_part s [] = s
last_part s (t ∷ ts) = last_part t ts

-- The parts of one entry: one number, or the ends of a range. No part at all is what the code
-- asserts not to be, and then dereferences.
unfoldable pub insert_entry : ℕ → List Bytes → List ℕ → Result (List ℕ)
unfolding last_part
insert_entry fuel [] ids = undefined
insert_entry fuel (s ∷ []) ids = stoul s >>= λ n. ok (insert (u32 n) ids)
insert_entry fuel (s ∷ t ∷ ts) ids = stoul s >>= λ first.
    stoul (last_part t ts) >>= λ last. insert_range fuel (u32 first) (u32 last) ids

unfoldable pub insert_entries : StringAlgorithms → ℕ → List Bytes → List ℕ → Result (List ℕ)
insert_entries al fuel [] ids = ok ids
insert_entries al fuel (entry ∷ entries) ids =
    insert_entry fuel (al.split dash (al.trim entry)) ids >>= insert_entries al fuel entries

unfoldable pub ids_from_line : StringAlgorithms → ℕ → Bytes → Result (List ℕ)
ids_from_line al fuel content = insert_entries al fuel (al.split comma content) []
