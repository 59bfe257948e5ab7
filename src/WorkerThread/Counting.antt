-- ===== src/WorkerThread/Counting.antt =====
-- The object lives as long as somebody holds it, as long as the uses come one after the other.
use boost_job.Common.{
  ℕ, ◌+◌, ◌-◌, ◌%◌, ◌^◌, ◌<◌, ◌≡◌, refl, ap, ◌∙◌, Bool, true, false, Option, none, some, List, [],
  ◌∷◌, length, ◌==◌, if◌then◌else◌, Bool-cases, inl, inr, arith,
}
use boost_job.Scheduler.{WorkerThread, Platform, end_thread, shutdown_worker}
use boost_job.WorkerThread.{
  Release, kept, freed, terminated, intrusive_ptr_add_ref, destroy, intrusive_ptr_release, Use,
  copies, drops, use_counted, run_uses,
}

-- How many holders there are after the uses, none from the moment the last one drops.
abbrev pub holders : ℕ → List Use → Option ℕ
holders n [] = some n
holders n (copies ∷ us) = holders (n + 1) us
holders n (drops ∷ us) = let rest = holders (n - 1) us in if n == 1 then none else rest

-- What is left of an object when its last holder is gone, by the answer of the join if the thread
-- is still joinable: no join fails, and the storage is given back to the node of the topology with
-- the thread no longer joinable; or one fails, and the program ends.
abbrev pub end_of : Option ℕ → Bool → Option ℕ → Release
end_of home true (some e) = terminated
end_of home true none = freed home false
end_of home false fails = freed home false

module _ (sys : Platform) (i : ℕ) (w : WorkerThread) where
  -- The object with so many holders, or its end.
  abbrev pub held_by : Option ℕ → Release
  held_by none = end_of w.topology.node_id w.joinable (sys.join_fails i)
  held_by (some n) = kept (record { use_count = n; thread = w })

  -- The code comes to that end.
  destroy-end_of : destroy w.topology.node_id (shutdown_worker sys i w) ≡ held_by none
  unfolding destroy shutdown_worker end_thread
  destroy-end_of = by w.joinable (sys.join_fails i) refl
    where
      by :
          (b : Bool) (o : Option ℕ)
          → w.joinable ≡ b
          → destroy w.topology.node_id (if b then end_thread sys w o else (w, none))
            ≡ end_of w.topology.node_id b o
      by true none e = refl
      by true (some x) e = refl
      by false o e = ap (freed w.topology.node_id) e

  over : (us : List Use) → run_uses sys i us (held_by none) ≡ held_by none
  unfolding run_uses
  over [] = refl
  over (u ∷ us) = ended w.joinable (sys.join_fails i)
    where
      ended :
          (b : Bool) (o : Option ℕ)
          → run_uses sys i (u ∷ us) (end_of w.topology.node_id b o) ≡ end_of w.topology.node_id b o
      ended true none = refl
      ended true (some e) = refl
      ended false o = refl

  add_ref_lem :
      (n : ℕ)
      → n + 1 < 2 ^ 64
      → intrusive_ptr_add_ref (record { use_count = n; thread = w })
        ≡ record { use_count = n + 1; thread = w }
  unfolding intrusive_ptr_add_ref
  add_ref_lem n h = ap (λ k. record { use_count = k; thread = w }) (omega arith)

  release_lem :
      (n : ℕ)
      → 0 < n
      → n < 2 ^ 64
      → intrusive_ptr_release sys i (record { use_count = n; thread = w })
        ≡ (if n == 1 then held_by none else held_by (some (n - 1)))
  unfolding intrusive_ptr_release
  release_lem n h small =
      ap result less
      ∙ test (destroy w.topology.node_id (shutdown_worker sys i w)) (held_by (some (n - 1)))
      ∙ ap (λ r. if n == 1 then r else held_by (some (n - 1))) destroy-end_of
    where
      result : ℕ → Release
      result k =
          if k == 0 then destroy w.topology.node_id (shutdown_worker sys i w) else held_by (some k)

      less : (n + 2 ^ 64 - 1) % 2 ^ 64 ≡ n - 1
      less = omega arith

      test : (a b : Release) → (if n - 1 == 0 then a else b) ≡ (if n == 1 then a else b)
      test a b = ground arith

  -- From at least one holder on, and with no overflow of the count, a sequence of copies and drops of
  -- pointers to a worker thread keeps the object with the number of its holders as its count. At the
  -- drop of the last one, no sooner and no later, the object ends: a thread that is joinable is
  -- joined, and if the join fails, the program ends; otherwise the storage goes back to the node of
  -- the topology, with the thread no longer joinable.
  pub run_uses-holders :
      (us : List Use) (n : ℕ)
      → 0 < n
      → n + length us < 2 ^ 64
      → run_uses sys i us (held_by (some n)) ≡ held_by (holders n us)
  unfolding run_uses use_counted
  run_uses-holders [] n h small = refl
  run_uses-holders (copies ∷ us) n h small =
      ap (λ t. run_uses sys i us (kept t)) (add_ref_lem n (omega arith))
      ∙ run_uses-holders us (n + 1) (omega arith) (omega arith)
  run_uses-holders (drops ∷ us) n h small =
      ap (λ r. run_uses sys i us r) (release_lem n h (omega arith)) ∙ elim (Bool-cases (n == 1)) [
        | inl last ↦ rw last (over us)
        | inr more ↦ rw more (run_uses-holders us (n - 1) (several n h more) (omega arith))
      ]
    where
      several : (n : ℕ) → 0 < n → (n == 1) ≡ false → 0 < n - 1
      several n h e = ground arith
