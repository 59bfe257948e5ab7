-- ===== src/Worker/Submit.antt =====
-- What a submission does to the queue and the heap, on both branches.
use mathlib.Core.Path.{fun_ext}
use boost_job.Common.{
  ℕ, suc, ◌^◌, ◌<◌, ◌≡◌, refl, sym, ap, ◌∙◌, ◌≢◌, false, true, Option, none, some, [], ◌∷◌, ◌++◌,
  arith, ◌==◌, if◌then◌else◌, ℕ_discrete,
}
use boost_job.Work.{Ptr, null, Work, work, Heap, write, SmartPtr, IsSmartPtr, create_work}
use boost_job.Work.Refs.{write_self, write_ne, copy_lem, drop_lem, drop_last}
use boost_job.Queue.{
  QueueStatus, opened, QueueOpStatus, success, notify_one, Mem, Outcome, returned, or_undefined,
  on_heap,
}
use boost_job.Queue.Shape.{Cells, has, IsQueue, frame, recount, out_of_none, ne_of_has, last_cell}
use boost_job.Queue.Push.{Pushed}
use boost_job.Queue.Branches.{push_closed, push_opened}
use boost_job.Worker.{submit_preempt, push_created, drop_temporary}
use boost_job.Worker.Ledger.{no_refs}

-- The item at `p` has one reference of its own, the temporary of the call.
abbrev temporary : Ptr → Ptr → ℕ
temporary p a = if a == p then 1 else 0

temporary_self : (p : Ptr) → temporary p p ≡ 1
temporary_self p = ground arith

temporary_ne : (p a : Ptr) → a ≢ p → temporary p a ≡ 0
temporary_ne p a away = ground arith

abbrev sole : Option Work → Option Work
sole none = none
sole (some w) = some (record w { use_count = 1 })

module _ {s : SmartPtr} (law : IsSmartPtr s) (m : Mem) (p f : ℕ) (ne : p ≢ null) where
  abbrev created : Heap
  created = write (write m.heap p (some (work 0 null f))) p (some (work 1 null f))

  create_work_lem : create_work s p f m.heap ≡ some created
  unfolding create_work
  create_work_lem = copy_lem law (write m.heap p _) p 0 null f ne (write_self _ _ _) (omega arith)

  pub created_ne : (a : Ptr) → a ≢ p → created a ≡ m.heap a
  created_ne a away = write_ne _ _ _ _ away ∙ write_ne _ _ _ _ away

  -- A submission with a fresh address to a closed queue destroys the item: the memory is as it was,
  -- and the status `closed` of `push` is the only trace.
  pub submit_closed :
      m.state ≡ QueueStatus.closed
      → m.heap p ≡ none
      → submit_preempt s p f m ≡ returned QueueOpStatus.closed m
  unfolding submit_preempt push_created drop_temporary or_undefined on_heap
  submit_closed e fresh =
      rw
        (
          create_work_lem,
          push_closed s (record m { heap = created }) p e,
          drop_last law created p f ne (write_self _ _ _),
        )
        (ap (λ h. returned QueueOpStatus.closed (record m { heap = h })) (fun_ext same))
    where
      same : (a : Ptr) → write (write created p (some (work 0 null f))) p none a ≡ m.heap a
      same a = elim (ℕ_discrete a p) [
        | yes here ↦ ap (write _ p none) here ∙ write_self _ _ _ ∙ sym (ap m.heap here ∙ fresh)
        | no away ↦ write_ne _ _ _ _ away ∙ write_ne _ _ _ _ away ∙ created_ne a away
      ]

  -- What a submission leaves: the job at the end of the queue, owned by its link alone.
  pub record Submitted (xs : Cells) (m' : Mem) : Type 0 where
    pub shape : IsQueue no_refs m' (xs ++ (p, f) ∷ [])
    pub state : m'.state ≡ m.state
    pub signals : m'.signals ≡ notify_one ∷ m.signals
    pub spared : (a : Ptr) → a ≢ p → has a xs ≡ false → m'.heap a ≡ m.heap a

  module _ (xs : Cells) (q : IsQueue no_refs m xs) (fresh : m.heap p ≡ none) where
    out : has p xs ≡ false
    out = out_of_none no_refs m.heap p xs q.linked fresh

    lists : IsQueue (temporary p) (record m { heap = created }) xs
    lists = record {
      at_head = q.at_head;
      at_tail = q.at_tail;
      linked = frame xs q.linked (λ a i. created_ne a (λ e. ne_of_has xs out i (sym e))) one;
    }
      where
        one : (a : Ptr) → has a xs ≡ true → temporary p a ≡ no_refs a
        one a i = temporary_ne p a λ e. ne_of_has xs out i (sym e)

    shared_cell :
        (m₁ : Mem)
        → Pushed (temporary p) (record m { heap = created }) xs p f m₁
        → m₁.heap p ≡ some (work 2 null f)
    shared_cell m₁ r =
        last_cell (temporary p) m₁.heap xs p f r.shape.linked
        ∙ ap (λ n. some (work (suc n) null f)) (temporary_self p)

    -- The drop of the temporary, behind the push.
    settle :
        (m₁ : Mem)
        → Pushed (temporary p) (record m { heap = created }) xs p f m₁
        → Submitted xs (record m₁ {
          heap = write m₁.heap p (some (work 1 null f));
          signals = notify_one ∷ m.signals;
        })
    settle m₁ r = record {
      shape = record {
        at_head = r.shape.at_head;
        at_tail = r.shape.at_tail;
        linked = recount (temporary p) no_refs (xs ++ (p, f) ∷ []) r.shape.linked change;
      };
      state = r.state;
      signals = refl;
      spared = λ a away o. write_ne _ _ _ _ away ∙ r.spared a away o ∙ created_ne a away;
    }
      where
        change :
            (a b k : ℕ)
            → has a (xs ++ (p, f) ∷ []) ≡ true
            → m₁.heap a ≡ some (work (suc (temporary p a)) b k)
            → (write m₁.heap p (some (work 1 null f)) a ≡ some (work 1 b k)) × (2 < 2 ^ 64)
        change a b k i e = elim (ℕ_discrete a p) [
          | yes here ↦ (
            ap (write _ p _) here
                ∙ write_self _ _ _
                ∙ ap sole (sym (shared_cell m₁ r) ∙ ap m₁.heap (sym here) ∙ e),
            omega arith,
          )
          | no away ↦ (
            write_ne _ _ _ _ away ∙ e ∙ ap (λ n. some (work (suc n) b k)) (temporary_ne p a away),
            omega arith,
          )
        ]

    -- A submission to an open queue succeeds, puts the item behind the others with one reference
    -- held by the queue, and sends one signal.
    pub submit_opened :
        m.state ≡ opened
        → (m' : Mem) × (submit_preempt s p f m ≡ returned success m') × Submitted xs m'
    unfolding submit_preempt push_created drop_temporary or_undefined on_heap
    submit_opened e =
        let (m₁, run, r) =
          push_opened law (temporary p) (record m { heap = created }) xs p f lists e ne out
            (write_self _ _ _ ∙ ap (λ n. some (work n null f)) (sym (temporary_self p)))
            (omega (arith, temporary_self p)) in
        (
          record m₁ {
            heap = write m₁.heap p (some (work 1 null f));
            signals = notify_one ∷ m.signals;
          },
          rw (
            create_work_lem,
            run,
            drop_lem law m₁.heap p 0 null f ne (shared_cell m₁ r) (omega arith),
          ),
          settle m₁ r,
        )

    abbrev pub Submits : QueueStatus → Outcome QueueOpStatus → Type 0
    Submits opened o = (m' : Mem) × (o ≡ returned success m') × Submitted xs m'
    Submits QueueStatus.closed o = o ≡ returned QueueOpStatus.closed m

    submit_case : (st : QueueStatus) → m.state ≡ st → Submits st (submit_preempt s p f m)
    submit_case opened e = submit_opened e
    submit_case QueueStatus.closed e = submit_closed e fresh

    -- A submission with a fresh address to an open queue succeeds, puts the item behind the others
    -- with one reference held by the queue, and sends one signal. One to a closed queue destroys the
    -- item: the memory is as it was, and the status `closed` of `push` is the only trace.
    pub submit-Submits : Submits m.state (submit_preempt s p f m)
    submit-Submits = submit_case m.state refl
