-- ===== src/Topology/Linux/Sample.antt =====
-- String functions that meet `IsStringAlgorithms`, for examples and tests.
use boost_job.Common.{
  ℕ, ◌≡◌, refl, ◌≢◌, Bool, true, false, ◌&&◌, List, [], ◌∷◌, ◌++◌, arith, ◌==◌, if◌then◌else◌,
}
use boost_job.Text.{Bytes, is_space, skip_space}
use boost_job.Topology.Linux.Ranges.{Without, NoSpace, StringAlgorithms, IsStringAlgorithms}

onto_first : ℕ → List Bytes → List Bytes
onto_first b [] = (b ∷ []) ∷ []
onto_first b (s ∷ ss) = (b ∷ s) ∷ ss

cut : ℕ → Bytes → List Bytes
unfolding onto_first
cut c [] = [] ∷ []
cut c (b ∷ s) = if b == c then [] ∷ cut c s else onto_first b (cut c s)

all_space : Bytes → Bool
all_space [] = true
all_space (c ∷ cs) = is_space c && all_space cs

trim_end : Bytes → Bytes
unfolding all_space
trim_end [] = []
trim_end (c ∷ cs) = if is_space c && all_space cs then [] else c ∷ trim_end cs

unfoldable pub plain : StringAlgorithms
unfolding cut trim_end skip_space
plain = record { split = cut; trim = λ s. trim_end (skip_space s) }

cut_last : (c : ℕ) (s : Bytes) → Without c s → cut c s ≡ s ∷ []
unfolding cut
cut_last c [] w = refl
cut_last c (b ∷ s) w = rw (other b w.0, cut_last c s w.1)
  where
    other : (b : ℕ) → b ≢ c → (b == c) ≡ false
    other b ne = ground arith

cut_more : (c : ℕ) (s rest : Bytes) → Without c s → cut c (s ++ c ∷ rest) ≡ s ∷ cut c rest
unfolding cut
cut_more c [] rest w = rw same
  where
    same : (c == c) ≡ true
    same = ground arith
cut_more c (b ∷ s) rest w = rw (other b w.0, cut_more c s rest w.1)
  where
    other : (b : ℕ) → b ≢ c → (b == c) ≡ false
    other b ne = ground arith

trim_end_none : (s : Bytes) → NoSpace s → trim_end s ≡ s
unfolding trim_end
trim_end_none [] w = refl
trim_end_none (c ∷ cs) w = rw (w.0, trim_end_none cs w.1)

skip_space_none : (s : Bytes) → NoSpace s → skip_space s ≡ s
unfolding skip_space
skip_space_none [] w = refl
skip_space_none (c ∷ cs) w = rw w.0

pub plain-IsStringAlgorithms : IsStringAlgorithms plain
unfolding plain
plain-IsStringAlgorithms = record {
  split_last = cut_last;
  split_more = cut_more;
  trim_none = λ s w. rw (skip_space_none s w) (trim_end_none s w);
}
