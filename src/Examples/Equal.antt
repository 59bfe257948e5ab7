-- ===== src/Examples/Equal.antt =====
-- The loop and the jobs compute the same number.
use boost_job.Common.{
  ℕ, zero, suc, ◌+◌, ◌-◌, ◌^◌, ◌≤◌, ◌<◌, ◌≡◌, refl, sym, ap, subst, ◌∙◌, true, false, none, some,
  ltb, ◌==◌, ◌||◌, if◌then◌else◌, arith,
}
use boost_job.Examples.{
  ℤ, pos, negsuc, ◌+ℤ◌, checked, Variables, round, rounds, third_of, Job, queued, waiting, result,
  fibonacci, Step, started, first_moves, second_moves, summed, Reach, here, next,
}
use boost_job.Examples.Reference.{fib, fib_int}

pub checked_lem : (x : ℕ) → x < 2 ^ 31 → checked (pos x) ≡ some (pos x)
checked_lem x h = ap (λ b. if b then some (pos x) else none) (below x h)
  where
    below : (x : ℕ) → x < 2 ^ 31 → ltb x (2 ^ 31) ≡ true
    below x h = ground arith

-- The loop.
abbrev at_fib : ℕ → ℤ → Variables
at_fib n t = record { first = pos (fib n); second = pos (fib (suc n)); third = t }

round_lem :
    (n : ℕ) (t : ℤ)
    → suc (suc n) ≤ 46
    → round (at_fib n t) ≡ some (at_fib (suc n) (pos (fib (suc (suc n)))))
unfolding round fib
round_lem n t h =
    ap
      (λ o. elim o [
        | none ↦ none
        | some z ↦ some (record { first = pos (fib (suc n)); second = z; third = z })
      ])
      (checked_lem (fib n + fib (suc n)) (omega (arith, fib_int (suc (suc n)) h))
        ∙ ap (λ x. some (pos x)) (omega arith))

rounds_lem :
    (k n : ℕ)
    → suc n + k ≤ 46
    → rounds k (at_fib n (pos (fib (suc n)))) ≡ some (pos (fib (suc n + k)))
unfolding rounds
rounds_lem zero n h = ap (λ m. some (pos (fib m))) (omega arith)
rounds_lem (suc k) n h =
    ap (λ o. elim o [ none ↦ none | some v ↦ rounds k v ])
      (round_lem n (pos (fib (suc n))) (omega arith))
    ∙ rounds_lem k (suc n) (omega arith)
    ∙ ap (λ m. some (pos (fib m))) (omega arith)

third_of_lem : (n : ℕ) → 3 ≤ n → n ≤ 46 → third_of (pos n) ≡ some (pos (fib n))
unfolding third_of rounds fib
third_of_lem n h small =
    ap (λ k. rounds k (record { first = pos 1; second = pos 1; third = negsuc 0 })) (again n h)
    ∙ ap (λ o. elim o [ none ↦ none | some v ↦ rounds (n - 3) v ])
        (round_lem 1 (negsuc 0) (omega arith))
    ∙ rounds_lem (n - 3) 2 (omega arith)
    ∙ ap (λ m. some (pos (fib m))) (whole n h)
  where
    again : (n : ℕ) → 3 ≤ n → n - 2 ≡ suc (n - 3)
    again n h = omega arith

    whole : (n : ℕ) → 3 ≤ n → 3 + (n - 3) ≡ n
    whole n h = omega arith

-- What a job comes to, and how many steps it takes at most.
abbrev pub value : Job → ℕ
value (queued (pos n)) = fib n
value (queued (negsuc n)) = 0
value (waiting a b) = value a + value b
value (result (pos v)) = v
value (result (negsuc v)) = 0

unfoldable pub cost : ℕ → ℕ
cost zero = 1
cost (suc zero) = 1
cost (suc (suc zero)) = 1
cost (suc (suc (suc n))) = 2 + (cost (suc n) + cost (suc (suc n)))

unfoldable pub steps_left : Job → ℕ
unfolding cost
steps_left (queued (pos n)) = cost n
steps_left (queued (negsuc n)) = 0
steps_left (waiting a b) = suc (steps_left a + steps_left b)
steps_left (result v) = 0

abbrev IsJob : Job → Type 0
IsJob (queued (pos n)) = (0 < n) × (n ≤ 46)
IsJob (queued (negsuc n)) = ⊥
IsJob (waiting a b) = IsJob a × IsJob b × (value a + value b < 2 ^ 31)
IsJob (result (pos v)) = Unit {0}
IsJob (result (negsuc v)) = ⊥

abbrev Moved : Job → Job → Type 0
Moved j k = IsJob k × (value k ≡ value j) × (steps_left k < steps_left j)

less_lem : (n k : ℕ) → suc k < n → n ≤ 46 → checked (pos n +ℤ negsuc k) ≡ some (pos (n - suc k))
less_lem n k h small =
    ap (λ b. checked (if b then pos (n - suc k) else negsuc (k - n))) (above n k h)
    ∙ checked_lem (n - suc k) (omega arith)
  where
    above : (n k : ℕ) → suc k < n → ltb k n ≡ true
    above n k h = ground arith

pub fibonacci_lem :
    (n m : ℕ)
    → n ≡ 3 + m
    → n ≤ 46
    → fibonacci (pos n) ≡ some (waiting (queued (pos (suc m))) (queued (pos (suc (suc m)))))
unfolding fibonacci
fibonacci_lem n m e small =
    rw (fibonacci, other n m e, less_lem n 1 (omega arith) small, less_lem n 0 (omega arith) small)
      (ap (λ a. some (waiting (queued (pos a)) (queued (pos (n - 1))))) (two n m e)
        ∙ ap (λ b. some (waiting (queued (pos (suc m))) (queued (pos b)))) (one n m e))
  where
    other : (n m : ℕ) → n ≡ 3 + m → ((n == 1) || (n == 2)) ≡ false
    other n m e = ground arith

    two : (n m : ℕ) → n ≡ 3 + m → n - 2 ≡ suc m
    two n m e = omega arith

    one : (n m : ℕ) → n ≡ 3 + m → n - 1 ≡ suc (suc m)
    one n m e = omega arith

started_lem :
    (n : ℕ) → 0 < n → n ≤ 46 → (j : Job) × (fibonacci (pos n) ≡ some j) × Moved (queued (pos n)) j
unfolding fibonacci fib cost steps_left
started_lem zero h small = absurd (omega arith)
started_lem (suc zero) h small = (result (pos 1), refl, (tt, refl, omega arith))
started_lem (suc (suc zero)) h small = (result (pos 1), refl, (tt, refl, omega arith))
started_lem (suc (suc (suc n))) h small = (
  waiting (queued (pos (suc n))) (queued (pos (suc (suc n)))),
  fibonacci_lem (suc (suc (suc n))) n (omega arith) small,
  (
    (
      (omega arith, omega arith),
      (omega arith, omega arith),
      omega (arith, fib_int (suc (suc (suc n))) small),
    ),
    omega arith,
    omega arith,
  ),
)

-- What a step that takes this value leads to.
outcome : {A : Type 0} {x y : A} → some x ≡ some y → x ≡ y
outcome {x = x} e = ap (λ o. elim o [ none ↦ x | some z ↦ z ]) e

pub sum_lem :
    (x y : ℕ) (z : ℤ) → x + y < 2 ^ 31 → checked (pos x +ℤ pos y) ≡ some z → pos (x + y) ≡ z
sum_lem x y z h e = outcome (sym (checked_lem (x + y) h) ∙ e)

step-Moved : (j k : Job) → Step j k → IsJob j → Moved j k
unfolding steps_left
step-Moved _ k (started (pos n) _ e) h =
    let (j, run, moved) = started_lem n h.0 h.1 in
    subst (λ j. Moved (queued (pos n)) j) (outcome (sym run ∙ e)) moved
step-Moved _ _ (started (negsuc n) _ e) h = absurd h
step-Moved _ _ (first_moves a a' b s) (ha, hb, small) =
    let (ok, same, fewer) = step-Moved a a' s ha in
    ((ok, hb, omega (arith, same, small)), omega (arith, same), omega (arith, fewer))
step-Moved _ _ (second_moves a b b' s) (ha, hb, small) =
    let (ok, same, fewer) = step-Moved b b' s hb in
    ((ha, ok, omega (arith, same, small)), omega (arith, same), omega (arith, fewer))
step-Moved _ _ (summed (pos x) (pos y) z e) h =
    subst (λ z. Moved (waiting (result (pos x)) (result (pos y))) (result z)) (sum_lem x y z h.2 e)
      (tt, refl, omega arith)
step-Moved _ _ (summed (negsuc x) y z e) h = absurd h.0
step-Moved _ _ (summed (pos x) (negsuc y) z e) h = absurd h.1

Reach-Moved :
    (n : ℕ) (j : Job) → 0 < n → n ≤ 46 → Reach (queued (pos n)) j → IsJob j × (value j ≡ fib n)
Reach-Moved n _ h small here = ((h, small), refl)
Reach-Moved n _ h small (next {k = k} {l = l} r s) =
    let (ok, same) = Reach-Moved n k h small r in
    let (ok', same', _) = step-Moved k l s ok in (ok', same' ∙ same)

-- The number that a job has returned, if it has.
abbrev pub Agrees : Job → ℤ → Type 0
Agrees (result v) w = v ≡ w
Agrees _ w = Unit {0}

value-Agrees : (j : Job) → IsJob j → (m : ℕ) → value j ≡ m → Agrees j (pos m)
value-Agrees (queued n) h m e = tt
value-Agrees (waiting a b) h m e = tt
value-Agrees (result (pos v)) h m e = ap pos e
value-Agrees (result (negsuc v)) h m e = absurd h

-- For a number from 3 up to 46, in any state that the jobs of dependent_jobs.cpp come to, in any order
-- and on any number of fibers: the loop of fibonacci.cpp computes the Fibonacci number, the first
-- job, if it has returned, has returned what the loop computes, and every step lowers the steps that
-- are left.
pub third_of-fibonacci :
    (n : ℕ) (j : Job)
    → 3 ≤ n
    → n ≤ 46
    → Reach (queued (pos n)) j
    → (third_of (pos n) ≡ some (pos (fib n)))
      × Agrees j (pos (fib n))
      × ((k : Job) → Step j k → steps_left k < steps_left j)
third_of-fibonacci n j h small r =
    let (ok, same) = Reach-Moved n j (omega arith) small r in
    (third_of_lem n h small, value-Agrees j ok (fib n) same, λ k s. (step-Moved j k s ok).2)
