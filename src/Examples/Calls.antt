-- ===== src/Examples/Calls.antt =====
-- What one call of `fibonacci` does, read from its result.
use boost_job.Common.{ℕ, zero, suc, ◌+◌, ◌≤◌, ◌<◌, ◌≡◌, sym, ap, ◌∙◌, Option, some, arith}
use boost_job.Examples.{ℤ, pos, Job, queued, waiting, result, fibonacci}
use boost_job.Examples.Equal.{fibonacci_lem}

value_in : ℤ → Option Job → ℤ
value_in d (some (result v)) = v
value_in d _ = d

first_in : ℤ → Option Job → ℤ
first_in d (some (waiting (queued a) b)) = a
first_in d _ = d

second_in : ℤ → Option Job → ℤ
second_in d (some (waiting a (queued b))) = b
second_in d _ = d

-- A call that returns at once, and one that splits, have these arguments.
pub returns_lem :
    (n : ℕ) (v : ℤ) → 0 < n → n ≤ 46 → fibonacci (pos n) ≡ some (result v) → (n < 3) × (v ≡ pos 1)
unfolding fibonacci value_in
returns_lem zero v h small e = absurd (omega arith)
returns_lem (suc zero) v h small e = (omega arith, sym (ap (value_in (pos 1)) e))
returns_lem (suc (suc zero)) v h small e = (omega arith, sym (ap (value_in (pos 1)) e))
returns_lem (suc (suc (suc n))) v h small e =
    absurd (never (sym (fibonacci_lem (suc (suc (suc n))) n (omega arith) small) ∙ e))
  where
    never : {a b : Job} → some (waiting a b) ≡ some (result v) → ⊥
    never e = cc

pub splits_lem :
    (n : ℕ) (a b : ℤ)
    → 0 < n
    → n ≤ 46
    → fibonacci (pos n) ≡ some (waiting (queued a) (queued b))
    → (m : ℕ) × (n ≡ 3 + m) × (a ≡ pos (suc m)) × (b ≡ pos (suc (suc m)))
unfolding fibonacci first_in second_in
splits_lem zero a b h small e = absurd (omega arith)
splits_lem (suc zero) a b h small e = absurd cc
splits_lem (suc (suc zero)) a b h small e = absurd cc
splits_lem (suc (suc (suc n))) a b h small e =
    let same = sym (fibonacci_lem (suc (suc (suc n))) n (omega arith) small) ∙ e in
    (n, omega arith, sym (ap (first_in a) same), sym (ap (second_in b) same))
