-- ===== src/Topology/Windows/CpuSets.antt =====
-- The processors that `compute_cpu_set` finds in a mask.
use boost_job.Common.{
  ℕ, zero, suc, ◌+◌, ◌-◌, ◌*◌, ◌/◌, ◌%◌, ◌^◌, ◌≤◌, ◌<◌, ◌≡◌, ◌≢◌, refl, sym, ap, ◌∙◌, Bool, true,
  false, ◌&&◌, ◌||◌, List, [], leb, ltb, ◌==◌, if◌then◌else◌, Bool-cases, inl, inr, ℕ_discrete,
  arith,
}
use boost_job.Topology.Ids.{insert, member, member-insert}
use boost_job.Topology.Windows.{has_bit, insert_bits, compute_cpu_set}

-- `x` has its bit among the `n` bits from `i` on.
abbrev in_bits : ℕ → ℕ → ℕ → ℕ → ℕ → Bool
in_bits n i g mask x = (leb (64 * g + i) x && ltb x (64 * g + i + n)) && has_bit mask (x - 64 * g)

in_bits-zero : (i g mask x : ℕ) → in_bits zero i g mask x ≡ false
in_bits-zero i g mask x = none_between (64 * g + i) (has_bit mask (x - 64 * g))
  where
    none_between : (l : ℕ) (b : Bool) → ((leb l x && ltb x (l + 0)) && b) ≡ false
    none_between l b = ground arith

step_set : ℕ → ℕ → ℕ → List ℕ → List ℕ
step_set i g mask s = if has_bit mask i then insert ((64 * g + i) % 2 ^ 32) s else s

-- The first of the bits is set, and it is not.
set_bit :
    (x n base i : ℕ) (before q : Bool)
    → base + i < 2 ^ 32
    → (x ≡ base + i → q ≡ true)
    → (((x == (base + i) % 2 ^ 32) || before)
        || ((leb (base + suc i) x && ltb x (base + suc i + n)) && q))
      ≡ (before || ((leb (base + i) x && ltb x (base + i + suc n)) && q))
set_bit x n base i before q small h = elim (ℕ_discrete x (base + i)) [
  | yes e ↦ rw (h e) (ground arith)
  | no ne ↦ ground arith
]

clear_bit :
    (x n base i : ℕ) (before q : Bool)
    → (x ≡ base + i → q ≡ false)
    → (before || ((leb (base + suc i) x && ltb x (base + suc i + n)) && q))
      ≡ (before || ((leb (base + i) x && ltb x (base + i + suc n)) && q))
clear_bit x n base i before q h = elim (ℕ_discrete x (base + i)) [
  | yes e ↦ rw (h e) (ground arith)
  | no ne ↦ ground arith
]

-- The loop body and the bits behind it are the bits from `i` on.
member-step_set :
    (n i g mask x : ℕ) (s : List ℕ)
    → 64 * g + i < 2 ^ 32
    → (member x (step_set i g mask s) || in_bits n (suc i) g mask x)
      ≡ (member x s || in_bits (suc n) i g mask x)
unfolding step_set
member-step_set n i g mask x s small = elim (Bool-cases (has_bit mask i)) [
  | inl b ↦
      rw (b, member-insert x ((64 * g + i) % 2 ^ 32) s)
        (set_bit x n (64 * g) i (member x s) (has_bit mask (x - 64 * g)) small (λ e. at_bit e ∙ b))
  | inr b ↦
      rw b (clear_bit x n (64 * g) i (member x s) (has_bit mask (x - 64 * g)) (λ e. at_bit e ∙ b))
]
  where
    at_bit : x ≡ 64 * g + i → has_bit mask (x - 64 * g) ≡ has_bit mask i
    at_bit e = ap (has_bit mask) (omega (arith, e))

insert_bits-member :
    (n i g mask x : ℕ) (s : List ℕ)
    → 64 * g + i + n ≤ 2 ^ 32
    → member x (insert_bits n i g mask s) ≡ (member x s || in_bits n i g mask x)
unfolding insert_bits step_set
insert_bits-member zero i g mask x s small =
    or_false (member x s) ∙ ap (λ b. member x s || b) (sym (in_bits-zero i g mask x))
  where
    or_false : (b : Bool) → b ≡ (b || false)
    or_false true = refl
    or_false false = refl
insert_bits-member (suc n) i g mask x s small =
    insert_bits-member n (suc i) g mask x (step_set i g mask s) (omega arith)
    ∙ member-step_set n i g mask x s (omega arith)

-- For a group below 2 ^ 26, the set of a mask holds exactly the processors of the group whose bit is
-- set: `x` is in it if `x / 64` is the group and bit `x % 64` of the mask is one.
pub compute_cpu_set-member :
    (g mask x : ℕ)
    → g < 2 ^ 26
    → member x (compute_cpu_set g mask) ≡ ((x / 64 == g) && has_bit mask (x % 64))
unfolding compute_cpu_set
compute_cpu_set-member g mask x small =
    insert_bits-member 64 0 g mask x [] (omega arith) ∙ elim (ℕ_discrete (x / 64) g) [
      | yes e ↦
          ap (λ k. (leb (64 * g + 0) x && ltb x (64 * g + 0 + 64)) && has_bit mask k) (same e)
          ∙ inside e (has_bit mask (x % 64))
      | no ne ↦ outside ne (has_bit mask (x - 64 * g)) (has_bit mask (x % 64))
    ]
  where
    same : x / 64 ≡ g → x - 64 * g ≡ x % 64
    same e = omega (arith, e)

    inside :
        x / 64 ≡ g
        → (b : Bool) → ((leb (64 * g + 0) x && ltb x (64 * g + 0 + 64)) && b) ≡ ((x / 64 == g) && b)
    inside e b = ground arith

    outside :
        x / 64 ≢ g
        → (b c : Bool)
        → ((leb (64 * g + 0) x && ltb x (64 * g + 0 + 64)) && b) ≡ ((x / 64 == g) && c)
    outside ne b c = ground arith
