-- ===== src/WorkerThread/Miscount.antt =====
-- What a miscount of the holders of a worker thread comes to.
use boost_job.Common.{
  ℕ, zero, suc, ◌+◌, ◌-◌, ◌^◌, ◌<◌, ◌≡◌, refl, ap, ◌∙◌, false, none, some, ◌∷◌, [], inl, inr,
  length-replicate, replicate, ◌==◌, arith,
}
use boost_job.Scheduler.{WorkerThread, Platform}
use boost_job.WorkerThread.{drops, run_uses}
use boost_job.WorkerThread.Counting.{holders, held_by, run_uses-holders}
use boost_job.WorkerThread.Race.{ready, stored, shared, Reach, copy_drop_race}

several_left : (n : ℕ) → 1 < n → (n == 1) ≡ false
several_left n h = ground arith

holders-some : (n k : ℕ) → k < n → holders n (replicate k drops) ≡ some (n - k)
holders-some n zero h = ap some (omega arith)
holders-some n (suc k) h =
    rw (several_left n (omega arith)) (holders-some (n - 1) k (omega arith) ∙ ap some (omega arith))

holders-none : (n k : ℕ) → n ≡ k → 0 < n → holders n (replicate k drops) ≡ none
holders-none n zero e h = absurd (omega arith)
holders-none n (suc zero) e h = ap (λ m. holders m (drops ∷ [])) e
holders-none n (suc (suc k)) e h =
    rw (several_left n (omega arith)) (holders-none (n - 1) (suc k) (omega arith) (omega arith))

module _ (sys : Platform) (i : ℕ) (w : WorkerThread) where
  -- A copy and a drop by two threads at once, with `n` holders before and thus `n` after, from
  -- two to 2 ^ 63 - 1, can leave a count from which the drop of the last but one of the `n` ends the object, while
  -- one holds it; and a count from which the drops of all `n` leave the object with the count one,
  -- which nobody is left to drop.
  pub copy_drop_race-run_uses :
      (n : ℕ)
      → 1 < n
      → n < 2 ^ 63
      → ((x : ℕ) × (y : ℕ) × Reach
            (shared n false ready ready)
            (shared (n - 1) false (stored x) (stored y)))
        × (run_uses sys i (replicate (n - 1) drops) (held_by sys i w (some (n - 1)))
            ≡ held_by sys i w none)
        × ((x : ℕ) × (y : ℕ) × Reach
              (shared n false ready ready)
              (shared (n + 1) false (stored x) (stored y)))
        × (run_uses sys i (replicate n drops) (held_by sys i w (some (n + 1)))
            ≡ held_by sys i w (some 1))
  copy_drop_race-run_uses n several small = (
    (copy_drop_race n several (omega arith) (n - 1) false).1 (refl, inr (inr refl)),
    run_uses-holders sys i w (replicate (n - 1) drops) (n - 1) (omega arith)
          (omega (arith, length-replicate (n - 1) drops))
        ∙ ap (held_by sys i w) (holders-none (n - 1) (n - 1) refl (omega arith)),
    (copy_drop_race n several (omega arith) (n + 1) false).1 (refl, inr (inl refl)),
    run_uses-holders sys i w (replicate n drops) (n + 1) (omega arith)
          (omega (arith, length-replicate n drops))
        ∙ ap (held_by sys i w) (holders-some (n + 1) n (omega arith) ∙ ap some (omega arith)),
  )
