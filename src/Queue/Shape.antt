-- ===== src/Queue/Shape.antt =====
-- The linked list of a queue as a list of cells: the address and the callable of each work item,
-- the oldest first. `ext` counts the references to an item that are not links of the list.
use boost_job.Common.{
  ℕ, suc, ◌+◌, ◌^◌, ◌<◌, ◌≡◌, refl, ap, ◌∙◌, ◌≢◌, Bool, true, false, ◌||◌, none, some, List, [],
  ◌∷◌, ◌++◌, arith, ◌==◌,
}
use boost_job.Work.{Ptr, null, work, Heap}
use boost_job.Queue.{Slot, head_slot, nxt_slot, Mem}

abbrev pub Cells : Type 0
Cells = List (Ptr × ℕ)

abbrev pub first : Cells → Ptr
first [] = null
first ((a, _) ∷ xs) = a

abbrev pub last_slot : Slot → Cells → Slot
last_slot s [] = s
last_slot s ((a, _) ∷ xs) = last_slot (nxt_slot a) xs

abbrev pub has : Ptr → Cells → Bool
has p [] = false
has p ((a, _) ∷ xs) = (p == a) || has p xs

abbrev pub Linked : (Ptr → ℕ) → Heap → Cells → Type 0
Linked ext h [] = Unit
Linked ext h ((a, f) ∷ xs) =
    (a ≢ null)
    × (h a ≡ some (work (suc (ext a)) (first xs) f))
    × (has a xs ≡ false)
    × (ext a + 2 < 2 ^ 64)
    × Linked ext h xs

-- The queue of `m` is the list `xs`.
pub record IsQueue (ext : Ptr → ℕ) (m : Mem) (xs : Cells) : Type 0 where
  pub at_head : m.head ≡ first xs
  pub at_tail : m.tail ≡ last_slot head_slot xs
  pub linked : Linked ext m.heap xs

-- A change that spares the cells of a list, and their reference counts, leaves it linked.
pub frame :
    {ext ext' : Ptr → ℕ} {h g : Heap} (xs : Cells)
    → Linked ext h xs
    → ((a : Ptr) → has a xs ≡ true → g a ≡ h a)
    → ((a : Ptr) → has a xs ≡ true → ext' a ≡ ext a)
    → Linked ext' g xs
frame [] l same count = tt
frame ((a, f) ∷ xs) (ne, cell, out, room, l) same count = (
  ne,
  ground (arith, same a, count a),
  out,
  ground (arith, count a),
  frame xs l (λ b i. same b (ground arith)) (λ b i. count b (ground arith)),
)

-- The same with the counts changed cell by cell.
pub recount :
    (ext ext' : Ptr → ℕ) {h g : Heap} (xs : Cells)
    → Linked ext h xs
    → ((a q f : ℕ)
        → has a xs ≡ true
        → h a ≡ some (work (suc (ext a)) q f)
        → (g a ≡ some (work (suc (ext' a)) q f)) × (ext' a + 2 < 2 ^ 64))
    → Linked ext' g xs
recount ext ext' [] l change = tt
recount ext ext' ((a, f) ∷ xs) (ne, cell, out, room, l) change =
    let c = change a (first xs) f (ground arith) cell in
    (ne, c.0, out, c.1, recount ext ext' xs l λ b q k i e. change b q k (ground arith) e)

-- No cell of a list stands at an address that holds no object.
pub out_of_none :
    (ext : Ptr → ℕ) (h : Heap) (p : Ptr) (xs : Cells)
    → Linked ext h xs
    → h p ≡ none
    → has p xs ≡ false
out_of_none ext h p [] l e = refl
out_of_none ext h p ((a, f) ∷ xs) l e = ground (arith, out_of_none ext h p xs l.4 e, l.1)

pub has-head : (a f : ℕ) (xs : Cells) → has a ((a, f) ∷ xs) ≡ true
has-head a f xs = ground arith

-- The last cell of a list that is not empty, and the slot behind it.
pub record Last (h : Heap) (b : Ptr) (g : ℕ) (xs : Cells) : Type 0 where
  pub at : Ptr
  pub count : ℕ
  pub fn : ℕ
  pub slot : last_slot (nxt_slot b) xs ≡ nxt_slot at
  pub ne_null : at ≢ null
  pub cell : h at ≡ some (work count null fn)
  pub inside : has at ((b, g) ∷ xs) ≡ true

pub last :
    (ext : Ptr → ℕ) {h : Heap} (b : Ptr) (g : ℕ) (xs : Cells)
    → Linked ext h ((b, g) ∷ xs)
    → Last h b g xs
last ext b g [] l = record {
  at = b;
  count = suc (ext b);
  fn = g;
  slot = refl;
  ne_null = l.0;
  cell = l.1;
  inside = ground arith;
}
last ext b g ((c, k) ∷ xs) l =
    let r = last ext c k xs l.4 in
    record {
      at = r.at;
      count = r.count;
      fn = r.fn;
      slot = r.slot;
      ne_null = r.ne_null;
      cell = r.cell;
      inside = ground (arith, r.inside);
    }

pub last_slot-append :
    (s : Slot) (xs : Cells) (a f : ℕ) → last_slot s (xs ++ (a, f) ∷ []) ≡ nxt_slot a
last_slot-append s [] a f = refl
last_slot-append s ((b, g) ∷ xs) a f = last_slot-append (nxt_slot b) xs a f

pub has-append : (p : Ptr) (xs ys : Cells) → has p (xs ++ ys) ≡ (has p xs || has p ys)
has-append p [] ys = refl
has-append p (x ∷ xs) ys = ground (arith, has-append p xs ys)

pub has-last :
    (b k : ℕ) (xs : Cells) (at : ℕ)
    → last_slot (nxt_slot b) xs ≡ nxt_slot at
    → has at ((b, k) ∷ xs) ≡ true
has-last b k [] at e = ground arith
has-last b k ((c, j) ∷ xs) at e = ground (arith, has-last c j xs at e)

pub ne_of_has : {a b : Ptr} (xs : Cells) → has a xs ≡ false → has b xs ≡ true → a ≢ b
ne_of_has xs out inside e = cc (ap (λ p. has p xs) e)

pub last_cell :
    (ext : Ptr → ℕ) (h : Heap) (xs : Cells) (a f : ℕ)
    → Linked ext h (xs ++ (a, f) ∷ [])
    → h a ≡ some (work (suc (ext a)) null f)
last_cell ext h [] a f l = l.1
last_cell ext h (x ∷ xs) a f l = last_cell ext h xs a f l.4

-- Linking a cell behind the last one: `at` gets its `nxt`, and nothing else of the list changes.
pub link :
    (ext : Ptr → ℕ) {h g : Heap} (b : Ptr) (k : ℕ) (xs : Cells) (at a f count fn : ℕ)
    → Linked ext h ((b, k) ∷ xs)
    → last_slot (nxt_slot b) xs ≡ nxt_slot at
    → h at ≡ some (work count null fn)
    → has a ((b, k) ∷ xs) ≡ false
    → a ≢ null
    → ext a + 2 < 2 ^ 64
    → g a ≡ some (work (suc (ext a)) null f)
    → g at ≡ some (work count a fn)
    → ((x : Ptr) → x ≢ a → x ≢ at → g x ≡ h x)
    → Linked ext g (((b, k) ∷ xs) ++ (a, f) ∷ [])
link ext b k [] at a f count fn l slot cell out ne room new old same =
    (l.0, ground arith, ground arith, l.3, (ne, new, refl, room, tt))
link ext b k ((c, j) ∷ xs) at a f count fn l slot cell out ne room new old same = (
  l.0,
  same b (ground arith) (ne_of_has ((c, j) ∷ xs) l.2 (has-last c j xs at slot)) ∙ l.1,
  apart,
  l.3,
  link ext c j xs at a f count fn l.4 slot cell (ground arith) ne room new old same,
)
  where
    apart : has b (((c, j) ∷ xs) ++ (a, f) ∷ []) ≡ false
    apart = rw (has-append b ((c, j) ∷ xs) ((a, f) ∷ [])) (ground arith)
