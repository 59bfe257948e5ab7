-- ===== src/Examples.antt =====
-- examples/fibonacci.cpp, examples/dependent_jobs.cpp and examples/dependent_jobs_mt.cpp: one job
-- that computes in a loop, and jobs that submit jobs and wait for their futures.
mod Reference
mod Equal
mod Crew
mod Calls
mod Fibers
mod Crowded
mod Known
mod Fits
mod Moves
mod Sends
mod Enough
mod PingPong
mod Synchronize
mod Tests
use boost_job.Common.{
  ℕ, zero, suc, ◌+◌, ◌-◌, ◌^◌, ◌≡◌, Bool, true, false, ◌||◌, Option, none, some, ltb, leb, ◌==◌,
  if◌then◌else◌,
}

-- An `int` by its value.
pub data ℤ : Type 0 where
  pos negsuc : ℕ → ℤ

infixl 20 ◌+ℤ◌
abbrev pub ◌+ℤ◌ : ℤ → ℤ → ℤ
pos a +ℤ pos b = pos (a + b)
pos a +ℤ negsuc b = if ltb b a then pos (a - suc b) else negsuc (b - a)
negsuc a +ℤ pos b = if ltb a b then pos (b - suc a) else negsuc (a - b)
negsuc a +ℤ negsuc b = negsuc (suc (a + b))

-- A value that a 32-bit `int` cannot hold is undefined.
abbrev pub in_int : ℤ → Bool
in_int (pos a) = ltb a (2 ^ 31)
in_int (negsuc a) = ltb a (2 ^ 31)

abbrev pub checked : ℤ → Option ℤ
checked x = if in_int x then some x else none

abbrev pub is_int : ℕ → ℤ → Bool
is_int k (pos a) = a == k
is_int k (negsuc a) = false

-- The variables of the loop.
pub record Variables : Type 0 where
  pub first : ℤ
  pub second : ℤ
  pub third : ℤ

unfoldable pub round : Variables → Option Variables
round v = elim (checked (v.first +ℤ v.second)) [
  | none ↦ none
  | some third ↦ some (record { first = v.second; second = third; third = third })
]

-- So many rounds.
unfoldable pub rounds : ℕ → Variables → Option ℤ
unfolding round
rounds zero v = some v.third
rounds (suc k) v = elim (round v) [ none ↦ none | some v' ↦ rounds k v' ]

-- How often the loop goes round from 2 up to `n`.
abbrev pub count : ℤ → ℕ
count (pos n) = n - 2
count (negsuc n) = 0

-- The job of fibonacci.cpp.
unfoldable pub third_of : ℤ → Option ℤ
unfolding rounds
third_of n = rounds (count n) (record { first = pos 1; second = pos 1; third = negsuc 0 })

-- A job of `fibonacci` in dependent_jobs.cpp: in a queue, waiting for the futures of the two jobs it
-- has submitted, or returned.
pub data Job : Type 0 where
  queued : ℤ → Job
  waiting : Job → Job → Job
  result : ℤ → Job

abbrev submitted : Option ℤ → Option ℤ → Option Job
submitted (some a) (some b) = some (waiting (queued a) (queued b))
submitted _ _ = none

-- What a job does up to the wait for the first future.
unfoldable pub fibonacci : ℤ → Option Job
fibonacci n =
    if is_int 1 n || is_int 2 n
    then some (result (pos 1))
    else submitted (checked (n +ℤ negsuc 1)) (checked (n +ℤ negsuc 0))

-- Worker fibers take the jobs in any order. There is no limit on the fibers that wait: the steps on a
-- `dynamic_pool<2,4>` are among these, and what cannot move here cannot move there.
pub data Step : Job → Job → Type 0 where
  started : (n : ℤ) (j : Job) → fibonacci n ≡ some j → Step (queued n) j
  first_moves : (a a' b : Job) → Step a a' → Step (waiting a b) (waiting a' b)
  second_moves : (a b b' : Job) → Step b b' → Step (waiting a b) (waiting a b')
  summed : (x y z : ℤ) → checked (x +ℤ y) ≡ some z → Step (waiting (result x) (result y)) (result z)

pub data Reach (j : Job) : Job → Type 0 where
  here : Reach j j
  next : {k l : Job} → Reach j k → Step k l → Reach j l
