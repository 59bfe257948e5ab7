-- ===== src/Queue/Push.antt =====
-- `push_tail_` on the linked list: the item goes to the end.
use boost_job.Common.{
  ℕ, suc, ◌+◌, ◌^◌, ◌<◌, ◌≡◌, refl, sym, ap, ◌∙◌, ◌≢◌, false, Option, some, [], ◌∷◌, ◌++◌, arith,
  ◌>>=◌,
}
use boost_job.Work.{Ptr, null, work, Heap, write, SmartPtr, IsSmartPtr}
use boost_job.Work.Refs.{write_self, write_ne, load_lem, copy_lem}
use boost_job.Queue.{
  Slot, head_slot, nxt_slot, Mem, read_slot, write_slot, on_heap, assign, push_tail_,
}
use boost_job.Queue.Shape.{Cells, has, IsQueue, Last, last, link, ne_of_has, last_slot-append}

-- What a push leaves of the memory outside the list.
pub record Pushed (ext : Ptr → ℕ) (m : Mem) (xs : Cells) (a f : ℕ) (m' : Mem) : Type 0 where
  pub shape : IsQueue ext m' (xs ++ (a, f) ∷ [])
  pub state : m'.state ≡ m.state
  pub signals : m'.signals ≡ m.signals
  pub spared : (p : Ptr) → p ≢ a → has p xs ≡ false → m'.heap p ≡ m.heap p

module _ {s : SmartPtr} (law : IsSmartPtr s) where
  module _ (m : Mem) (a n f : ℕ) (ne : a ≢ null) (cell : m.heap a ≡ some (work n null f))
      (small : n + 1 < 2 ^ 64) where
    abbrev shared : Heap
    shared = write m.heap a (some (work (suc n) null f))

    -- Assignment of a new item to the empty `head_`.
    assign_head :
        m.head ≡ null
        → assign s head_slot a m
          ≡ some (record m { heap = shared; queue = record m.queue { head = a } })
    unfolding assign read_slot write_slot on_heap
    assign_head e = rw (copy_lem law m.heap a n null f ne cell small) (
        ap
          (λ p.
            (s.drop p shared >>= λ h.
            some (record m { heap = h; queue = record m.queue { head = a } })))
          e
        ∙ rw (law.drop_null shared))

    -- Assignment of a new item to the empty `nxt` of another one.
    assign_nxt :
        (c k g : ℕ)
        → c ≢ null
        → c ≢ a
        → m.heap c ≡ some (work k null g)
        → assign s (nxt_slot c) a m ≡ some (record m { heap = write shared c (some (work k a g)) })
    unfolding assign read_slot write_slot on_heap
    assign_nxt c k g ne' apart e = rw (
      load_lem m.heap c ne',
      e,
      copy_lem law m.heap a n null f ne cell small,
      load_lem shared c ne',
      write_ne m.heap a c _ apart,
      e,
      law.drop_null _,
    )

    -- What `push_tail_` makes of an empty queue, and of one whose last item is `c`.
    abbrev alone : Mem
    alone = record m { heap = shared; queue = record m.queue { head = a; tail = nxt_slot a } }

    abbrev behind : ℕ → ℕ → ℕ → Mem
    behind c k g = record m {
      heap = write shared c (some (work k a g));
      queue = record m.queue { tail = nxt_slot a };
    }

    abbrev finish : Slot → Option Mem
    finish t =
        assign s t a m >>= λ m₁. some (record m₁ { queue = record m₁.queue { tail = nxt_slot a } })

    push_tail_-alone : m.tail ≡ head_slot → m.head ≡ null → push_tail_ s a m ≡ some alone
    unfolding push_tail_
    push_tail_-alone e e' = ap finish e ∙ rw (assign_head e')

    push_tail_-behind :
        (c k g : ℕ)
        → m.tail ≡ nxt_slot c
        → c ≢ null
        → c ≢ a
        → m.heap c ≡ some (work k null g)
        → push_tail_ s a m ≡ some (behind c k g)
    unfolding push_tail_
    push_tail_-behind c k g e ne' apart e' = ap finish e ∙ rw (assign_nxt c k g ne' apart e')

  -- The item that is pushed stands behind all others, and gains the reference of its link.
  pub push_tail_-Pushed :
      (ext : Ptr → ℕ) (m : Mem) (xs : Cells) (a f : ℕ)
      → IsQueue ext m xs
      → a ≢ null
      → has a xs ≡ false
      → m.heap a ≡ some (work (ext a) null f)
      → ext a + 2 < 2 ^ 64
      → (m' : Mem) × (push_tail_ s a m ≡ some m') × Pushed ext m xs a f m'
  push_tail_-Pushed ext m [] a f q ne out cell room = (
    alone m a (ext a) f ne cell (omega arith),
    push_tail_-alone m a (ext a) f ne cell (omega arith) q.at_tail q.at_head,
    record {
      shape = record {
        at_head = refl;
        at_tail = refl;
        linked = (ne, write_self _ _ _, refl, room, tt);
      };
      state = refl;
      signals = refl;
      spared = λ p apart _. write_ne _ _ _ _ apart;
    },
  )
  push_tail_-Pushed ext m ((b, g) ∷ xs) a f q ne out cell room = (
    behind m a (ext a) f ne cell (omega arith) r.at r.count r.fn,
    push_tail_-behind m a (ext a) f ne cell (omega arith) r.at r.count r.fn (q.at_tail ∙ r.slot)
        r.ne_null apart r.cell,
    record {
      shape = record {
        at_head = q.at_head;
        at_tail = sym (last_slot-append head_slot ((b, g) ∷ xs) a f);
        linked =
            link ext b g xs r.at a f r.count r.fn q.linked r.slot r.cell out ne room
              (write_ne _ _ _ _ (λ e. apart (sym e)) ∙ write_self _ _ _) (write_self _ _ _)
              (λ x away off. write_ne _ _ _ _ off ∙ write_ne _ _ _ _ away);
      };
      state = refl;
      signals = refl;
      spared =
          λ p away o. write_ne _ _ _ _ (ne_of_has ((b, g) ∷ xs) o r.inside) ∙ write_ne _ _ _ _ away;
    },
  )
    where
      r : Last m.heap b g xs
      r = last ext b g xs q.linked

      apart : r.at ≢ a
      apart e = ne_of_has ((b, g) ∷ xs) out r.inside (sym e)
