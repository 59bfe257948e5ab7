-- ===== src/Examples/Reference.antt =====
-- The numbers of Fibonacci, and which of them an `int` can hold.
use boost_job.Common.{ℕ, zero, suc, ◌+◌, ◌-◌, ◌^◌, ◌≤◌, ◌<◌, ◌≡◌, refl, ap, sym, arith}

unfoldable pub fib : ℕ → ℕ
fib zero = 0
fib (suc zero) = 1
fib (suc (suc n)) = fib (suc n) + fib n

pub fib-suc : (n : ℕ) → fib n ≤ fib (suc n)
unfolding fib
fib-suc zero = omega arith
fib-suc (suc n) = omega arith

fib_mono : (d n m : ℕ) → n + d ≡ m → fib n ≤ fib m
unfolding fib
fib_mono zero n m e = omega (arith, ap fib (same n m e))
  where
    same : (n m : ℕ) → n + 0 ≡ m → n ≡ m
    same n m e = omega arith
fib_mono (suc d) n m e = omega (arith, fib-suc n, fib_mono d (suc n) m (omega arith))

pub fib_pos : (n : ℕ) → 0 < fib (suc n)
unfolding fib
fib_pos zero = omega arith
fib_pos (suc n) = omega (arith, fib_pos n)

-- Two neighbours, from one pair to the next.
neighbours : ℕ → ℕ × ℕ → ℕ × ℕ
neighbours zero (a, b) = (a, b)
neighbours (suc n) (a, b) = neighbours n (b, b + a)

neighbours_lem : (n k m : ℕ) → n + k ≡ m → neighbours n (fib k, fib (suc k)) ≡ (fib m, fib (suc m))
unfolding neighbours fib
neighbours_lem zero k m e = ap (λ m. (fib m, fib (suc m))) (same k m e)
  where
    same : (k m : ℕ) → 0 + k ≡ m → k ≡ m
    same k m e = omega arith
neighbours_lem (suc n) k m e = neighbours_lem n (suc k) m (omega arith)

fib_46 : fib 46 ≡ 1836311903
unfolding fib neighbours
fib_46 = sym (ap (λ p. p.0) (neighbours_lem 46 0 46 refl))

pub fib_int : (n : ℕ) → n ≤ 46 → fib n < 2 ^ 31
fib_int n h = omega (arith, fib_46, fib_mono (46 - n) n 46 (omega arith))
