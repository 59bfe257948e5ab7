-- ===== src/Examples/Fits.antt =====
-- The jobs of the example in pools with a fiber for each job that can wait.
use boost_job.Common.{
  ℕ, zero, suc, ◌+◌, ◌*◌, ◌-◌, ◌≤◌, ◌<◌, ◌≡◌, ◌⊎◌, inl, refl, sym, ap, ◌∙◌, some, length, get_elem?,
  arith, All, HasKey, total,
}
use boost_job.Examples.{ℤ, pos, negsuc, queued, waiting, result, fibonacci}
use boost_job.Examples.Reference.{fib, fib_pos}
use boost_job.Examples.Equal.{cost}
use boost_job.Examples.Crew.{Other, unsent, sent, Call, Wait, Crew, submitted, value_of}
use boost_job.Examples.Calls.{returns_lem, splits_lem}
use boost_job.Examples.Known.{IsArg, IsCall, IsWait, IsResult}

-- The fibers that a job and all that it submits keep waiting in the end, and their steps.
abbrev pub fibers : ℤ → ℕ
fibers (pos m) = fib m - 1
fibers (negsuc m) = 0

abbrev pub steps : ℤ → ℕ
steps (pos m) = 2 * cost m
steps (negsuc m) = 0

abbrev pub call_fibers : Call → ℕ
call_fibers c = fibers c.arg

abbrev pub call_steps : Call → ℕ
call_steps c = steps c.arg

-- The same for a job that has submitted.
abbrev pub other_fibers : Other → ℕ
other_fibers (unsent b) = fibers b
other_fibers (sent i) = 0

abbrev pub other_steps : Other → ℕ
other_steps (unsent b) = 2 + steps b
other_steps (sent i) = 1

abbrev pub wait_fibers : Wait → ℕ
wait_fibers w = suc (other_fibers w.f2)

abbrev pub wait_steps : Wait → ℕ
wait_steps w = other_steps w.f2

unfoldable pub crew_left : Crew → ℕ
crew_left s = total call_steps s.queue + total wait_steps s.waits

abbrev pub call_id : Call → ℕ
call_id c = c.id

abbrev pub wait_id : Wait → ℕ
wait_id w = w.id

-- A job is in a queue, waits, or has returned.
abbrev pub Somewhere : ℕ → Crew → Type 0
Somewhere i s =
    HasKey call_id i s.queue
    ⊎ (HasKey wait_id i s.waits ⊎ ((x : ℤ) × (value_of i s.results ≡ some x)))

pub record Fits (n : ℕ) (s : Crew) : Type 0 where
  pub calls : All (IsCall s.args) s.queue
  pub waiters : All (IsWait s.args) s.waits
  pub values : All (IsResult s.args) s.results
  pub whole : (i : ℕ) → i < length s.args → Somewhere i s
  pub asked : get_elem? s.args 0 ≡ some (pos n)
  pub room : suc (total call_fibers s.queue + total wait_fibers s.waits) ≤ fib n

pub submitted-Fits : (n : ℕ) → 0 < n → n ≤ 46 → Fits n (submitted (pos n))
unfolding submitted total
submitted-Fits n h small = record {
  calls = (((h, small), refl), tt);
  waiters = tt;
  values = tt;
  whole = λ i below. inl (inl (only i below));
  asked = refl;
  room = positive n h;
}
  where
    only : (i : ℕ) → i < 1 → 0 ≡ i
    only i below = omega arith

    positive : (n : ℕ) → 0 < n → suc (((fib n - 1) + 0) + 0) ≤ fib n
    positive zero h = absurd (omega arith)
    positive (suc n) h = omega (arith, fib_pos n)

-- What a job that returns at once, and one that submits two, has as argument.
pub ends_lem :
    (z v : ℤ)
    → IsArg z
    → fibonacci z ≡ some (result v)
    → (m : ℕ) × (z ≡ pos m) × (v ≡ pos (fib m)) × (fibers z ≡ 0) × (steps z ≡ 2)
unfolding fib cost
ends_lem (pos m) v (h, small) e =
    let (low, one) = returns_lem m v h small e in
    (m, refl, one ∙ ap pos (sym (of_one m h low)), none_wait m h low, one_step m h low)
  where
    of_one : (m : ℕ) → 0 < m → m < 3 → fib m ≡ 1
    of_one zero h low = absurd (omega arith)
    of_one (suc zero) h low = refl
    of_one (suc (suc zero)) h low = refl
    of_one (suc (suc (suc m))) h low = absurd (omega arith)

    none_wait : (m : ℕ) → 0 < m → m < 3 → fib m - 1 ≡ 0
    none_wait zero h low = absurd (omega arith)
    none_wait (suc zero) h low = refl
    none_wait (suc (suc zero)) h low = refl
    none_wait (suc (suc (suc m))) h low = absurd (omega arith)

    one_step : (m : ℕ) → 0 < m → m < 3 → 2 * cost m ≡ 2
    one_step zero h low = absurd (omega arith)
    one_step (suc zero) h low = omega arith
    one_step (suc (suc zero)) h low = omega arith
    one_step (suc (suc (suc m))) h low = absurd (omega arith)
ends_lem (negsuc m) v h e = absurd h

pub submits_lem :
    (z a b : ℤ)
    → IsArg z
    → fibonacci z ≡ some (waiting (queued a) (queued b))
    → (m : ℕ) × (suc (suc (suc m)) ≤ 46)
      × (z ≡ pos (suc (suc (suc m))))
      × (a ≡ pos (suc m))
      × (b ≡ pos (suc (suc m)))
submits_lem (pos n) a b (h, small) e =
    let (m, three, ea, eb) = splits_lem n a b h small e in
    (m, omega (arith, three, small), ap pos (three ∙ omega arith), ea, eb)
submits_lem (negsuc m) a b h e = absurd h

pub shares_lem :
    (m : ℕ)
    → (suc ((fib (suc m) - 1) + (fib (suc (suc m)) - 1)) ≡ fib (suc (suc (suc m))) - 1)
      × (4 + (2 * cost (suc m) + 2 * cost (suc (suc m))) ≡ 2 * cost (suc (suc (suc m))))
unfolding fib cost
shares_lem m = (omega (arith, fib_pos m, fib_pos (suc m)), omega arith)
