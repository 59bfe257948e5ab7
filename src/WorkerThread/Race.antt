-- ===== src/WorkerThread/Race.antt =====
-- The count is a plain number, and `++` and `--` read it and write it in two accesses. Where two
-- threads use pointers to one object at once, nothing orders these: `worker_thread::queue_at` copies
-- and drops a pointer to the worker thread of another processor, and the submitting thread drops
-- its pointer to a work item while a worker fiber moves the item. On real machines the accesses
-- interleave; the C++ standard gives no meaning to such a program at all.
use boost_job.Common.{
  sym, ◌∙◌, Bool, false, ◌==◌, ℕ, ◌+◌, ◌-◌, ◌%◌, ◌^◌, ◌<◌, ◌≡◌, refl, ◌⊎◌, inl, inr, ◌↔◌, subst,
  arith,
}

-- One use of the count by a thread: before the read, with the value that was read, and behind the
-- write, with the value that was written.
pub data Access : Type 0 where
  ready : Access
  loaded : ℕ → Access
  stored : ℕ → Access

-- A thread that copies a pointer, and one that drops another. `freed` tells whether the second has
-- found zero and given the object back.
pub record Shared : Type 0 where
  pub use_count : ℕ
  pub freed : Bool
  pub copying : Access
  pub dropping : Access

abbrev pub incremented : ℕ → ℕ
incremented n = (n + 1) % 2 ^ 64

abbrev pub decremented : ℕ → ℕ
decremented n = (n + 2 ^ 64 - 1) % 2 ^ 64

abbrev pub shared : ℕ → Bool → Access → Access → Shared
shared n end a b = record { use_count = n; freed = end; copying = a; dropping = b }

-- The release compares what it has written with zero.
pub data Step : Shared → Shared → Type 0 where
  copy_loads :
      (n : ℕ) (end : Bool) (b : Access) → Step (shared n end ready b) (shared n end (loaded n) b)
  copy_stores :
      (n v : ℕ) (end : Bool) (b : Access)
      → Step (shared n end (loaded v) b) (shared (incremented v) end (stored (incremented v)) b)
  drop_loads :
      (n : ℕ) (end : Bool) (a : Access) → Step (shared n end a ready) (shared n end a (loaded n))
  drop_stores :
      (n v : ℕ) (end : Bool) (a : Access)
      → Step
          (shared n end a (loaded v))
          (shared (decremented v) (decremented v == 0) a (stored (decremented v)))

pub data Reach (s : Shared) : Shared → Type 0 where
  here : Reach s s
  next : {t u : Shared} → Reach s t → Step t u → Reach s u

-- What may stand in the count while both are on their way, from `n` holders.
abbrev Between : ℕ → ℕ → Access → Access → Type 0
Between n c ready ready = c ≡ n
Between n c (loaded v) ready = (c ≡ n) × (v ≡ n)
Between n c ready (loaded v) = (c ≡ n) × (v ≡ n)
Between n c (loaded v) (loaded u) = (c ≡ n) × (v ≡ n) × (u ≡ n)
Between n c (stored x) ready = c ≡ n + 1
Between n c ready (stored y) = c ≡ n - 1
Between n c (stored x) (loaded u) = (c ≡ n + 1) × ((u ≡ n) ⊎ (u ≡ n + 1))
Between n c (loaded v) (stored y) = (c ≡ n - 1) × ((v ≡ n) ⊎ (v ≡ n - 1))
Between n c (stored x) (stored y) = (c ≡ n) ⊎ ((c ≡ n + 1) ⊎ (c ≡ n - 1))

module _ (n : ℕ) (several : 1 < n) (small : n + 1 < 2 ^ 64) where
  step-Between :
      {s t : Shared}
      → Step s t
      → Between n s.use_count s.copying s.dropping
      → Between n t.use_count t.copying t.dropping
  step-Between (copy_loads m end ready) b = (b, b)
  step-Between (copy_loads m end (loaded u)) b = (b.0, b.0, b.1)
  step-Between (copy_loads m end (stored y)) b = (b, inr b)
  step-Between (copy_stores m v end ready) b = omega arith
  step-Between (copy_stores m v end (loaded u)) b = (omega arith, inl b.2)
  step-Between (copy_stores m v end (stored y)) b = ground arith
  step-Between (drop_loads m end ready) b = (b, b)
  step-Between (drop_loads m end (loaded v)) b = (b.0, b.1, b.0)
  step-Between (drop_loads m end (stored x)) b = (b, inr b)
  step-Between (drop_stores m v end ready) b = omega arith
  step-Between (drop_stores m v end (loaded u)) b = (omega arith, inl b.1)
  step-Between (drop_stores m v end (stored x)) b = ground arith

  not_last : (v : ℕ) → (v ≡ n) ⊎ (v ≡ n + 1) → (decremented v == 0) ≡ false
  not_last v h = not_zero (decremented v) (positive v h)
    where
      positive : (v : ℕ) → (v ≡ n) ⊎ (v ≡ n + 1) → 0 < decremented v
      positive v (inl e) = omega arith
      positive v (inr e) = omega arith

      not_zero : (k : ℕ) → 0 < k → (k == 0) ≡ false
      not_zero k h = ground arith

  step-freed :
      {s t : Shared}
      → Step s t
      → Between n s.use_count s.copying s.dropping
      → s.freed ≡ false
      → t.freed ≡ false
  step-freed (copy_loads m end b) h e = e
  step-freed (copy_stores m v end b) h e = e
  step-freed (drop_loads m end a) h e = e
  step-freed (drop_stores m v end ready) h e = not_last v (inl h.1)
  step-freed (drop_stores m v end (loaded u)) h e = not_last v (inl h.2)
  step-freed (drop_stores m v end (stored x)) h e = not_last v h.1

  Reach-Between :
      {s : Shared}
      → Reach (shared n false ready ready) s
      → (s.freed ≡ false) × Between n s.use_count s.copying s.dropping
  Reach-Between here = (refl, refl)
  Reach-Between (next r s) = let (e, b) = Reach-Between r in (step-freed s b e, step-Between s b)

  abbrev pub Ends : ℕ → Bool → Type 0
  Ends c end =
      (x : ℕ) × (y : ℕ) × Reach (shared n false ready ready) (shared c end (stored x) (stored y))

  -- One after the other, and both reads before either write.
  in_turn : Ends (decremented (incremented n)) (decremented (incremented n) == 0)
  in_turn = (
    _,
    _,
    next
        (next (next (next here (copy_loads n false ready)) (copy_stores n n false ready))
          (drop_loads (incremented n) false (stored (incremented n))))
        (drop_stores (incremented n) (incremented n) false (stored (incremented n))),
  )

  drop_lost : Ends (incremented n) (decremented n == 0)
  drop_lost = (
    _,
    _,
    next
        (next (next (next here (copy_loads n false ready)) (drop_loads n false (loaded n)))
          (drop_stores n n false (loaded n)))
        (copy_stores (decremented n) n (decremented n == 0) (stored (decremented n))),
  )

  copy_lost : Ends (decremented n) (decremented n == 0)
  copy_lost = (
    _,
    _,
    next
        (next (next (next here (copy_loads n false ready)) (drop_loads n false (loaded n)))
          (copy_stores n n false (loaded n)))
        (drop_stores (incremented n) n false (stored (incremented n))),
  )

  ends : (c d : ℕ) (b end : Bool) → d ≡ c → b ≡ end → Ends d b → Ends c end
  ends c d b end e f r = subst (λ x. Ends x end) e (subst (Ends d) f r)

  -- With `n` holders, two at least, a copy and a drop by two threads at once do not free the object,
  -- and can leave the count `n`, and also one more or one less; and no other value.
  pub copy_drop_race :
      (c : ℕ) (end : Bool)
      → ((x : ℕ) × (y : ℕ) × Reach
            (shared n false ready ready)
            (shared c end (stored x) (stored y)))
        ↔ ((end ≡ false) × ((c ≡ n) ⊎ ((c ≡ n + 1) ⊎ (c ≡ n - 1))))
  copy_drop_race c end = (λ r. Reach-Between r.2, λ h. found h.0 h.1)
    where
      found : end ≡ false → (c ≡ n) ⊎ ((c ≡ n + 1) ⊎ (c ≡ n - 1)) → Ends c end
      found e (inl h) =
          ends c (decremented (incremented n)) _ end (omega arith)
            (not_last (incremented n) (inr (omega arith)) ∙ sym e) in_turn
      found e (inr (inl h)) =
          ends c (incremented n) _ end (omega arith) (not_last n (inl refl) ∙ sym e) drop_lost
      found e (inr (inr h)) =
          ends c (decremented n) _ end (omega arith) (not_last n (inl refl) ∙ sym e) copy_lost
