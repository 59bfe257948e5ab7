-- ===== src/Pinning/Bits.antt =====
-- The mask of one processor, checked bit by bit for the 64 masks.
use boost_job.Common.{
  ℕ, zero, suc, ◌/◌, ◌%◌, ◌^◌, ◌<◌, ◌≡◌, refl, Bool, true, false, not, ◌&&◌, ◌==◌, if◌then◌else◌,
  arith,
}
use boost_job.Topology.Windows.{has_bit}

-- A test of every number under a bound.
holds_under : (ℕ → Bool) → ℕ → Bool
holds_under test zero = true
holds_under test (suc bound) =
    let smaller = holds_under test bound in if test bound then smaller else false

holds_under_lem :
    (test : ℕ → Bool) (bound k : ℕ) → k < bound → holds_under test bound ≡ true → test k ≡ true
unfolding holds_under
holds_under_lem test zero k small passes = absurd (omega arith)
holds_under_lem test (suc bound) k small passes = ground (arith, holds_under_lem test bound k)

abbrev agree : Bool → Bool → Bool
agree true b = b
agree false b = not b

agree_lem : (a b : Bool) → agree a b ≡ true → a ≡ b
agree_lem true true h = refl
agree_lem true false h = absurd cc
agree_lem false true h = absurd cc
agree_lem false false h = refl

one_bit : ℕ → ℕ → Bool
one_bit k j = agree (has_bit (2 ^ k) j) (j == k)

masks : holds_under (λ k. holds_under (one_bit k) 64) 64 ≡ true
unfolding holds_under one_bit
masks = refl

pub has_bit-pow : (k j : ℕ) → k < 64 → j < 64 → has_bit (2 ^ k) j ≡ (j == k)
unfolding one_bit
has_bit-pow k j hk hj =
    let row = holds_under_lem (λ k. holds_under (one_bit k) 64) 64 k hk masks in
    agree_lem (has_bit (2 ^ k) j) (j == k) (holds_under_lem (one_bit k) 64 j hj row)

-- A processor is its group and its number in the group.
pub same_processor :
    (x c : ℕ) → c < 2 ^ 22 → ((x / 64 == c / 64 % 2 ^ 16) && (x % 64 == c % 64)) ≡ (x == c)
same_processor x c h = ground arith
