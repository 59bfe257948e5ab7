-- ===== src/Queue/Pop.antt =====
-- `pop_head_` on the linked list: the oldest item is unlinked.
use boost_job.Common.{
  ℕ, suc, ◌+◌, ◌^◌, ◌<◌, ◌≡◌, refl, sym, ◌∙◌, ◌≢◌, false, some, [], ◌∷◌, arith, ◌==◌, ℕ_discrete,
}
use boost_job.Work.{Ptr, null, work, Heap, write, SmartPtr, IsSmartPtr}
use boost_job.Work.Refs.{write_self, write_ne, load_lem, copy_lem, drop_lem}
use boost_job.Queue.{
  head_slot, Mem, is_empty_, read_slot, write_slot, on_heap, assign, retarget, pop_head_,
}
use boost_job.Queue.Shape.{Cells, first, Linked, IsQueue, frame, has-head, ne_of_has}

-- The item at `a` is out of the list `xs`, and has the reference of its link for the caller.
pub record Popped (ext : Ptr → ℕ) (m : Mem) (a f : ℕ) (xs : Cells) (m' : Mem) : Type 0 where
  pub shape : IsQueue ext m' xs
  pub item : m'.heap a ≡ some (work (suc (ext a)) null f)
  pub state : m'.state ≡ m.state
  pub signals : m'.signals ≡ m.signals
  pub spared : (p : Ptr) → p ≢ a → m'.heap p ≡ m.heap p

module _ {s : SmartPtr} (law : IsSmartPtr s) where
  module _ (m : Mem) (a n f : ℕ) (ne : a ≢ null) (small : n + 2 < 2 ^ 64) where
    abbrev held : ℕ → Heap
    held q = write m.heap a (some (work (suc (suc n)) q f))

    abbrev unlinked : Heap → ℕ → Heap
    unlinked h q = write (write h a (some (work (suc n) q f))) a (some (work (suc n) null f))

    abbrev emptied : Mem
    emptied = record m {
      heap = unlinked (held null) null;
      queue = record m.queue { head = null; tail = head_slot };
    }

    pop_head_-emptied :
        m.head ≡ a → m.heap a ≡ some (work (suc n) null f) → pop_head_ s m ≡ some (a, emptied)
    unfolding pop_head_ assign retarget is_empty_ on_heap read_slot write_slot
    pop_head_-emptied at cell = rw (
      at,
      copy_lem law m.heap a (suc n) null f ne cell (omega arith),
      load_lem (held null) a ne,
      write_self m.heap a _,
      law.copy_null _,
      drop_lem law (held null) a n null f ne (write_self _ _ _) small,
      retarget,
      load_lem _ a ne,
      write_self _ a _,
      on_heap,
      law.drop_null _,
    )

    module _ (b k c g : ℕ) (ne' : b ≢ null) (apart : b ≢ a) (small' : k + 2 < 2 ^ 64)
        (cell' : m.heap b ≡ some (work (suc k) c g)) where
      abbrev lent : Heap
      lent = write (held b) b (some (work (suc (suc k)) c g))

      abbrev advanced : Mem
      advanced = record m {
        heap = write (unlinked lent b) b (some (work (suc k) c g));
        queue = record m.queue { head = b };
      }

      b_in_held : held b b ≡ some (work (suc k) c g)
      b_in_held = write_ne _ _ _ _ apart ∙ cell'

      a_in_lent : lent a ≡ some (work (suc (suc n)) b f)
      a_in_lent = write_ne _ _ _ _ (λ e. apart (sym e)) ∙ write_self _ _ _

      b_in_unlinked : unlinked lent b b ≡ some (work (suc (suc k)) c g)
      b_in_unlinked = write_ne _ _ _ _ apart ∙ write_ne _ _ _ _ apart ∙ write_self _ _ _

      pop_head_-advanced :
          m.head ≡ a → m.heap a ≡ some (work (suc n) b f) → pop_head_ s m ≡ some (a, advanced)
      unfolding pop_head_ assign retarget is_empty_ on_heap read_slot write_slot
      pop_head_-advanced at cell = rw (
        at,
        copy_lem law m.heap a (suc n) b f ne cell (omega arith),
        load_lem (held b) a ne,
        write_self m.heap a _,
        copy_lem law (held b) b (suc k) c g ne' b_in_held (omega arith),
        drop_lem law lent a n b f ne a_in_lent small,
        retarget,
        not_null,
        load_lem _ a ne,
        write_self _ a _,
        on_heap,
        drop_lem law (unlinked lent b) b k c g ne' b_in_unlinked small',
      )
        where
          not_null : (b == null) ≡ false
          not_null = ground arith

  -- Popping from a list that is not empty gives its first item, and leaves the others linked.
  pub pop_head_-Popped :
      (ext : Ptr → ℕ) (m : Mem) (a f : ℕ) (xs : Cells)
      → IsQueue ext m ((a, f) ∷ xs)
      → (m' : Mem) × (pop_head_ s m ≡ some (a, m')) × Popped ext m a f xs m'
  pop_head_-Popped ext m a f [] q = (
    emptied m a (ext a) f l.0 l.3,
    pop_head_-emptied m a (ext a) f l.0 l.3 q.at_head l.1,
    record {
      shape = record { at_head = refl; at_tail = refl; linked = tt };
      item = write_self _ _ _;
      state = refl;
      signals = refl;
      spared = λ p away. write_ne _ _ _ _ away ∙ write_ne _ _ _ _ away ∙ write_ne _ _ _ _ away;
    },
  )
    where
      l : Linked ext m.heap ((a, f) ∷ [])
      l = q.linked
  pop_head_-Popped ext m a f ((b, g) ∷ ys) q = (
    m',
    pop_head_-advanced m a (ext a) f l.0 l.3 b (ext b) (first ys) g l.4.0 apart l.4.3 l.4.1
        q.at_head l.1,
    record {
      shape = record {
        at_head = refl;
        at_tail = q.at_tail;
        linked =
            frame ((b, g) ∷ ys) l.4 (λ x i. spared x λ e. ne_of_has ((b, g) ∷ ys) l.2 i (sym e))
              (λ _ _. refl);
      };
      item = write_ne _ _ _ _ (λ e. apart (sym e)) ∙ write_self _ _ _;
      state = refl;
      signals = refl;
      spared = spared;
    },
  )
    where
      l : Linked ext m.heap ((a, f) ∷ (b, g) ∷ ys)
      l = q.linked

      apart : b ≢ a
      apart e = ne_of_has ((b, g) ∷ ys) l.2 (has-head b g ys) (sym e)

      m' : Mem
      m' = advanced m a (ext a) f l.0 l.3 b (ext b) (first ys) g l.4.0 apart l.4.3 l.4.1

      spared : (p : Ptr) → p ≢ a → m'.heap p ≡ m.heap p
      spared p away = elim (ℕ_discrete p b) [
        | yes same ↦ rw same (write_self _ _ _ ∙ sym l.4.1)
        | no off ↦
            write_ne _ _ _ _ off
            ∙ write_ne _ _ _ _ away
            ∙ write_ne _ _ _ _ away
            ∙ write_ne _ _ _ _ off
            ∙ write_ne _ _ _ _ away
      ]
