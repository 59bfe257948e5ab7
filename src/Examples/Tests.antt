-- ===== src/Examples/Tests.antt =====
-- The jobs for the third number, and for the fifth.
use boost_job.Common.{ℕ, suc, ◌*◌, ◌≤◌, ◌<◌, ◌≡◌, ◌⊎◌, refl, none, some, [], length, arith}
use boost_job.Examples.{
  ℤ, pos, third_of, Job, queued, waiting, result, fibonacci, Step, started, first_moves,
  second_moves, summed, Reach, here, next,
}
use boost_job.Examples.Equal.{steps_left, third_of-fibonacci}
use boost_job.Examples.Reference.{fib}
use boost_job.Examples.Crew as Crew
use boost_job.Examples.Crowded.{phases, Reach_stalls}
use boost_job.Examples.Fits.{crew_left}
use boost_job.Examples.Enough.{Reach_returns}

-- The job for the third number, its two jobs, and their results.
abbrev returned_job : Job
returned_job = result (pos 2)

third_returns : Reach (queued (pos 3)) returned_job
unfolding fibonacci
third_returns =
    next
      (next
        (next (next here (started (pos 3) (waiting (queued (pos 1)) (queued (pos 2))) refl))
          (first_moves _ _ _ (started (pos 1) (result (pos 1)) refl)))
        (second_moves _ _ _ (started (pos 2) (result (pos 1)) refl)))
      (summed (pos 1) (pos 1) (pos 2) refl)

third_of-fibonacci_example :
    (third_of (pos 3) ≡ some (pos (fib 3)))
    × (pos 2 ≡ pos (fib 3))
    × ((k : Job) → Step returned_job k → steps_left k < steps_left returned_job)
third_of-fibonacci_example =
    third_of-fibonacci 3 returned_job (omega arith) (omega arith) third_returns

-- The job of `main` has submitted its first job.
abbrev first_call : Crew.Call
first_call = record { home = Crew.first; id = 0; arg = pos 5 }

unfoldable split_crew : Crew.Crew
unfolding Crew.submitted Crew.splits
split_crew = Crew.splits (Crew.submitted (pos 5)) first_call [] (pos 3) (pos 4)

reached : (size : ℕ) → 0 < size → Crew.Reach size (pos 5) split_crew
unfolding split_crew Crew.submitted Crew.splits fibonacci
reached size h = Crew.next Crew.here (Crew.submits [] [] first_call (pos 3) (pos 4) refl tt h refl)

Reach_stalls_example :
    ((i : ℕ) → Crew.value_of i split_crew.results ≡ none)
    × ((t : Crew.Crew) → Crew.Step 1 split_crew t → phases t ≡ suc (phases split_crew))
    × (length split_crew.waits ≤ 2 * 1)
    × (phases split_crew ≤ 4 * 1)
Reach_stalls_example =
    Reach_stalls 1 5 split_crew (omega arith) (omega arith) (reached 1 (omega arith))

Reach_returns_example :
    ((t : Crew.Crew) → Crew.Step 10 split_crew t → crew_left t < crew_left split_crew)
    × ((v : ℤ) → Crew.value_of 0 split_crew.results ≡ some v → v ≡ pos (fib 5))
    × ((Crew.value_of 0 split_crew.results ≡ some (pos (fib 5)))
        ⊎ ((t : Crew.Crew) × Crew.Step 10 split_crew t))
unfolding fib
Reach_returns_example =
    Reach_returns 10 5 split_crew (omega arith) (omega arith) (omega arith)
      (reached 10 (omega arith))
