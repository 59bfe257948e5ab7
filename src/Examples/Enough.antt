-- ===== src/Examples/Enough.antt =====
-- Pools with enough fibers for all jobs that the example submits.
use boost_job.Common.{
  ℕ, zero, suc, ◌+◌, ◌≤◌, ◌<◌, ◌≡◌, ◌⊎◌, inl, inr, refl, sym, ap, subst, ◌∙◌, some, List, [], ◌∷◌,
  ◌++◌, length, get_elem?-lt-length, arith, All, All-taken, HasKey, AtMost, AtMost-HasKey, largest,
  total,
}
use boost_job.Examples.{ℤ, pos, negsuc, ◌+ℤ◌, checked, queued, waiting, result, fibonacci}
use boost_job.Examples.Reference.{fib, fib_int}
use boost_job.Examples.Equal.{checked_lem, fibonacci_lem}
use boost_job.Examples.Crew.{
  Other, unsent, sent, sends, submits_other, Home, first, second, Call, Wait, Crew, value_of, busy,
  returns, splits, sums, Step, ends, submits, resumes, Reach, here, next,
}
use boost_job.Examples.Fibers.{busy_total}
use boost_job.Examples.Known.{IsResult, IsOther, IsArg, IsCall, IsWait, value_of_lem}
use boost_job.Examples.Fits.{
  wait_fibers, crew_left, call_id, wait_id, Somewhere, Fits, submitted-Fits,
}
use boost_job.Examples.Moves.{ends-Fits, submits-Fits}
use boost_job.Examples.Sends.{sends-Fits, sums-Fits}

abbrev Fewer : ℕ → Crew → Crew → Type 0
Fewer n s t = Fits n t × (crew_left t < crew_left s)

step-Fewer : (size n : ℕ) (s t : Crew) → Fits n s → Step size s t → Fewer n s t
step-Fewer size n s _ h (ends before after c v e order free run) =
    ends-Fits n s before after c v h e run
step-Fewer size n s _ h (submits before after c a b e order free run) =
    submits-Fits n s before after c a b h e run
step-Fewer size n s _ h (submits_other before after w b e to_send) =
    sends-Fits n s before after w b h e to_send
step-Fewer size n s _ h (resumes before after w i x y z e to left right run) =
    sums-Fits n s before after w i x y z h e to left right run

Reach-Fits : (size n : ℕ) (s : Crew) → 0 < n → n ≤ 46 → Reach size (pos n) s → Fits n s
Reach-Fits size n _ h small here = submitted-Fits n h small
Reach-Fits size n _ h small (next {s = s} {t = t} r step) =
    (step-Fewer size n s t (Reach-Fits size n s h small r) step).0

-- A job that has a fiber runs.
abbrev Moves : ℕ → Crew → Type 0
Moves size s = (t : Crew) × Step size s t

runs_lem :
    (z : ℤ)
    → IsArg z
    → ((v : ℤ) × (fibonacci z ≡ some (result v)))
      ⊎ ((a : ℤ) × (b : ℤ) × (fibonacci z ≡ some (waiting (queued a) (queued b))))
unfolding fibonacci
runs_lem (pos zero) h = absurd (omega (arith, h.0))
runs_lem (pos (suc zero)) h = inl (pos 1, refl)
runs_lem (pos (suc (suc zero))) h = inl (pos 1, refl)
runs_lem (pos (suc (suc (suc m)))) (h, small) =
    inr (pos (suc m), pos (suc (suc m)), fibonacci_lem (suc (suc (suc m))) m (omega arith) small)
runs_lem (negsuc m) h = absurd h

call-Moves :
    (size : ℕ) (s : Crew) (c : Call) (rest : List Call)
    → s.queue ≡ c ∷ rest
    → busy c.home s.waits < size
    → IsArg c.arg
    → Moves size s
call-Moves size s c rest e free arg = elim (runs_lem c.arg arg) [
  | inl (v, run) ↦ (returns s c rest v, ends [] rest c v e tt free run)
  | inr (a, b, run) ↦ (splits s c rest a b, submits [] rest c a b e tt free run)
]

-- When no job is queued, the last of those that wait has both results.
found_later :
    (s : Crew) (i j : ℕ)
    → s.queue ≡ []
    → AtMost wait_id i s.waits
    → i < j
    → Somewhere j s
    → (x : ℤ) × (value_of j s.results ≡ some x)
found_later s i j e most later (inl q) = absurd (subst (HasKey call_id j) e q)
found_later s i j e most later (inr (inl w)) =
    absurd (omega (arith, later, AtMost-HasKey wait_id i j s.waits most w))
found_later s i j e most later (inr (inr found)) = found

-- The last of those that wait, by what it does next.
other-Moves :
    (size : ℕ) (s : Crew) (before after : List Wait) (u : Wait) (o : Other)
    → All (IsResult s.args) s.results
    → ((j : ℕ) → j < length s.args → Somewhere j s)
    → s.queue ≡ []
    → s.waits ≡ before ++ u ∷ after
    → AtMost wait_id u.id s.waits
    → IsWait s.args u
    → u.f2 ≡ o
    → Moves size s
unfolding fib
other-Moves size s before after u (unsent b) values whole empty at most waiter to_send =
    (sends s before u after b, submits_other before after u b at to_send)
other-Moves size s before after u (sent i) values whole empty at most waiter to =
    let (own, later) = subst (IsOther s.args u.id waiter.m) to waiter.other in
    let (x, left) =
      found_later s u.id u.f1 empty most waiter.left_later
        (whole u.f1 (get_elem?-lt-length s.args u.f1 (pos (suc waiter.m)) waiter.left)) in
    let (y, right) =
      found_later s u.id i empty most later
        (whole i (get_elem?-lt-length s.args i (pos (suc (suc waiter.m))) own)) in
    let ex = value_of_lem s.args s.results u.f1 (suc waiter.m) x values waiter.left left in
    let ey = value_of_lem s.args s.results i (suc (suc waiter.m)) y values own right in
    let sum = pos (fib (suc waiter.m) + fib (suc (suc waiter.m))) in
    (
      sums s u (before ++ after) sum,
      resumes before after u i x y sum at to left right (
          ap (λ x. checked (x +ℤ y)) ex
          ∙ ap (λ y. checked (pos (fib (suc waiter.m)) +ℤ y)) ey
          ∙ checked_lem (fib (suc waiter.m) + fib (suc (suc waiter.m)))
              (omega (arith, fib_int (suc (suc (suc waiter.m))) waiter.small))),
    )

wait-Moves :
    (size n : ℕ) (s : Crew) (w : Wait) (ws : List Wait)
    → Fits n s
    → s.queue ≡ []
    → s.waits ≡ w ∷ ws
    → Moves size s
wait-Moves size n s w ws h empty e =
    let (before, u, after, split, most) = largest wait_id w ws in
    let at = e ∙ split in
    let waiter =
      (All-taken (IsWait s.args) before u after (subst (All (IsWait s.args)) at h.waiters)).0 in
    other-Moves size s before after u u.f2 h.values h.whole empty at
      (subst (AtMost wait_id u.id) (sym e) most) waiter refl

-- The fibers that are kept are among those that are counted.
kept_fibers : (ws : List Wait) → length ws ≤ total wait_fibers ws
unfolding total
kept_fibers [] = omega arith
kept_fibers (w ∷ ws) = omega (arith, kept_fibers ws)

List-cases {ℓ} :
    {A : Type ℓ} (xs : List A) → (xs ≡ []) ⊎ ((x : A) × (rest : List A) × (xs ≡ x ∷ rest))
List-cases [] = inl refl
List-cases (x ∷ rest) = inr (x, rest, refl)

busy_few : (size : ℕ) (h : Home) (ws : List Wait) → length ws < size → busy h ws < size
busy_few size first ws few = omega (arith, busy_total ws)
busy_few size second ws few = omega (arith, busy_total ws)

Crew-progress :
    (size n : ℕ) (s : Crew)
    → fib n ≤ size
    → Fits n s
    → (value_of 0 s.results ≡ some (pos (fib n))) ⊎ Moves size s
Crew-progress size n s enough h = elim (List-cases s.queue) [
  | inr (c, rest, e) ↦ inr (
      call-Moves size s c rest e
        (busy_few size c.home s.waits (omega (arith, h.room, enough, kept_fibers s.waits)))
        (subst (All (IsCall s.args)) e h.calls).0.0)
  | inl empty ↦ elim (List-cases s.waits) [
    | inr (w, ws, e) ↦ inr (wait-Moves size n s w ws h empty e)
    | inl none_waits ↦
        let (v, found) =
          only_value s 0 empty none_waits
            (h.whole 0 (get_elem?-lt-length s.args 0 (pos n) h.asked)) in
        inl (found ∙ ap some (value_of_lem s.args s.results 0 n v h.values h.asked found))
  ]
]
  where
    only_value :
        (s : Crew) (i : ℕ)
        → s.queue ≡ []
        → s.waits ≡ []
        → Somewhere i s
        → (x : ℤ) × (value_of i s.results ≡ some x)
    only_value s i e e' (inl q) = absurd (subst (HasKey call_id i) e q)
    only_value s i e e' (inr (inl w)) = absurd (subst (HasKey wait_id i) e' w)
    only_value s i e e' (inr (inr found)) = found

-- For a number n from 1 up to 46 and two pools that each have at least as many fibers as the number
-- of Fibonacci at n, in any order in which the two worker threads run the jobs of
-- dependent_jobs_mt.cpp: every step lowers the work that is left, the job that `main` submitted has
-- the number of Fibonacci at n as its result whenever it has one, and until then some job can go on.
pub Reach_returns :
    (size n : ℕ) (s : Crew)
    → 0 < n
    → n ≤ 46
    → fib n ≤ size
    → Reach size (pos n) s
    → ((t : Crew) → Step size s t → crew_left t < crew_left s)
      × ((v : ℤ) → value_of 0 s.results ≡ some v → v ≡ pos (fib n))
      × ((value_of 0 s.results ≡ some (pos (fib n))) ⊎ ((t : Crew) × Step size s t))
Reach_returns size n s h small enough r =
    let fits = Reach-Fits size n s h small r in
    (
      λ t step. (step-Fewer size n s t fits step).1,
      λ v found. value_of_lem s.args s.results 0 n v fits.values fits.asked found,
      Crew-progress size n s enough fits,
    )
