-- ===== src/Worker/Ledger.antt =====
-- Who owns each work item: the queue's links, or one fiber that runs it, and nobody else.
use boost_job.Common.{
  ℕ, ◌≡◌, refl, sym, ap, ◌∙◌, ◌≢◌, true, false, not, ◌&&◌, none, some, [], ◌∷◌, arith, ◌==◌,
  ℕ_discrete,
}
use boost_job.Work.{Ptr, null, work, Heap}
use boost_job.Queue.Shape.{Cells, has, IsQueue}
use boost_job.Worker.{Thread, remove}

-- No references but the links, and those of the running items.
abbrev pub no_refs : Ptr → ℕ
no_refs _ = 0

abbrev pub Held : Heap → Cells → Type 0
Held h [] = Unit
Held h ((a, f) ∷ rs) = (a ≢ null) × (h a ≡ some (work 1 null f)) × (has a rs ≡ false) × Held h rs

pub record Inv (t : Thread) (xs : Cells) : Type 0 where
  pub queued : IsQueue no_refs t.mem xs
  pub held : Held t.heap t.running
  pub apart : (p : Ptr) → has p xs ≡ true → has p t.running ≡ false
  pub rest : (p : Ptr) → has p xs ≡ false → has p t.running ≡ false → t.heap p ≡ none

pub Held-frame :
    {h g : Heap} (rs : Cells) → Held h rs → ((p : Ptr) → has p rs ≡ true → g p ≡ h p) → Held g rs
Held-frame [] l same = tt
Held-frame ((a, f) ∷ rs) (ne, cell, out, l) same =
    (ne, ground (arith, same a), out, Held-frame rs l λ b i. same b (ground arith))

pub has-remove : (q p : Ptr) (rs : Cells) → has q (remove p rs) ≡ (has q rs && not (q == p))
has-remove q p [] = refl
has-remove q p ((a, f) ∷ rs) = ground (arith, has-remove q p rs)

pub Held-remove : (h : Heap) (p : Ptr) (rs : Cells) → Held h rs → Held h (remove p rs)
Held-remove h p [] l = tt
Held-remove h p ((a, f) ∷ rs) (ne, cell, out, l) =
    ground (arith, Held-remove h p rs l, has-remove a p rs)

pub held_cell :
    (h : Heap) (p : Ptr) (rs : Cells)
    → Held h rs
    → has p rs ≡ true
    → (p ≢ null) × (f : ℕ) × (h p ≡ some (work 1 null f))
held_cell h p [] l i = cc
held_cell h p ((a, f) ∷ rs) (ne, cell, out, l) i = elim (ℕ_discrete p a) [
  | yes here ↦ (λ e. ne (sym here ∙ e), f, ap h here ∙ cell)
  | no away ↦ held_cell h p rs l (ground arith)
]
