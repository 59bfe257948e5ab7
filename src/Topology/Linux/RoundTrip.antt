-- ===== src/Topology/Linux/RoundTrip.antt =====
-- Lists of processors as the kernel prints them, and what `ids_from_line` makes of them.
use boost_job.Common.{
  ℕ, zero, suc, ◌+◌, ◌-◌, ◌^◌, ◌≤◌, ◌<◌, ◌≡◌, refl, ap, ◌∙◌, ◌≢◌, inl, inr, Bool, true, false, ◌&&◌,
  ◌||◌, List, [], ◌∷◌, ◌++◌, arith, leb, ◌==◌, Bool-cases,
}
use boost_job.Text.{Bytes, Result, ok, invalid_argument, diverges, is_space, skip_space, stoul}
use boost_job.Text.Decimal.{decimal, AllDigits, decimal-AllDigits, stoul-decimal}
use boost_job.Topology.Ids.{insert, member, IsAscending, member-insert, insert-IsAscending}
use boost_job.Topology.Linux.Ranges.{
  comma, dash, Without, NoSpace, StringAlgorithms, IsStringAlgorithms, u32, insert_range,
  insert_entry, insert_entries, ids_from_line,
}

pub data Entry : Type 0 where
  one : ℕ → Entry
  span : ℕ → ℕ → Entry

abbrev pub print : Entry → Bytes
print (one n) = decimal n
print (span a b) = decimal a ++ dash ∷ decimal b

abbrev pub print_list : Entry → List Entry → Bytes
print_list e [] = print e
print_list e (f ∷ fs) = print e ++ comma ∷ print_list f fs

abbrev pub covers : Entry → ℕ → Bool
covers (one n) x = x == n
covers (span a b) x = leb a x && leb x b

abbrev pub named : List Entry → ℕ → Bool
named [] x = false
named (e ∷ es) x = covers e x || named es x

-- The numbers fit 32 bits, and no range ends at the largest of them.
abbrev pub FitsOne : Entry → Type 0
FitsOne (one n) = n < 2 ^ 32
FitsOne (span a b) = (a < 2 ^ 32) × (b + 1 < 2 ^ 32)

abbrev pub Fits : List Entry → Type 0
Fits [] = Unit {0}
Fits (e ∷ es) = FitsOne e × Fits es

-- A result that is a set, with the members that `p` tells.
pub record Yields (r : Result (List ℕ)) (p : ℕ → Bool) : Type 0 where
  pub ids : List ℕ
  pub runs : r ≡ ok ids
  pub ascending : IsAscending ids
  pub members : (x : ℕ) → member x ids ≡ p x

pub insert_range-Yields :
    (fuel i last : ℕ) (ids : List ℕ)
    → last + 1 < 2 ^ 32
    → last + 1 < fuel + i
    → 0 < fuel
    → IsAscending ids
    → Yields (insert_range fuel i last ids) (λ x. (leb i x && leb x last) || member x ids)
unfolding insert_range
insert_range-Yields zero i last ids small enough some a = absurd (omega arith)
insert_range-Yields (suc fuel) i last ids small enough some a = elim (Bool-cases (leb i last)) [
  | inl go ↦
      let e : u32 (i + 1) ≡ i + 1 = ground arith in
      let r =
        insert_range-Yields fuel (i + 1) last (insert i ids) small (omega arith) (ground arith)
          (insert-IsAscending i ids a) in
      record {
        ids = r.ids;
        runs = rw go (ap (λ j. insert_range fuel j last (insert i ids)) e ∙ r.runs);
        ascending = r.ascending;
        members = λ x. r.members x ∙ ground (arith, member-insert x i ids);
      }
  | inr stop ↦ record { ids = ids; runs = rw stop; ascending = a; members = λ x. ground arith }
]

-- A digit is neither a separator nor a blank.
Without-digits : (c : ℕ) (s : Bytes) → c < 48 → AllDigits s → Without c s
Without-digits c [] h d = tt
Without-digits c (b ∷ s) h d = (ground arith, Without-digits c s h d.1)

NoSpace-digits : (s : Bytes) → AllDigits s → NoSpace s
NoSpace-digits [] d = tt
NoSpace-digits (b ∷ s) d = (ground arith, NoSpace-digits s d.1)

Without-append :
    (c b : ℕ) (s t : Bytes) → Without c s → b ≢ c → Without c t → Without c (s ++ b ∷ t)
Without-append c b [] t h ne k = (ne, k)
Without-append c b (a ∷ s) t h ne k = (h.0, Without-append c b s t h.1 ne k)

NoSpace-append :
    (b : ℕ) (s t : Bytes) → NoSpace s → is_space b ≡ false → NoSpace t → NoSpace (s ++ b ∷ t)
NoSpace-append b [] t h ne k = (ne, k)
NoSpace-append b (a ∷ s) t h ne k = (h.0, NoSpace-append b s t h.1 ne k)

print-no_comma : (e : Entry) → Without comma (print e)
print-no_comma (one n) = Without-digits comma (decimal n) (omega arith) (decimal-AllDigits n)
print-no_comma (span a b) =
    Without-append comma dash (decimal a) (decimal b)
      (Without-digits comma (decimal a) (omega arith) (decimal-AllDigits a)) (omega arith)
      (Without-digits comma (decimal b) (omega arith) (decimal-AllDigits b))

print-NoSpace : (e : Entry) → NoSpace (print e)
print-NoSpace (one n) = NoSpace-digits (decimal n) (decimal-AllDigits n)
print-NoSpace (span a b) =
    NoSpace-append dash (decimal a) (decimal b) (NoSpace-digits (decimal a) (decimal-AllDigits a))
      refl (NoSpace-digits (decimal b) (decimal-AllDigits b))

no_dash : (n : ℕ) → Without dash (decimal n)
no_dash n = Without-digits dash (decimal n) (omega arith) (decimal-AllDigits n)

module _ {al : StringAlgorithms} (law : IsStringAlgorithms al) (fuel : ℕ)
    (enough : 2 ^ 32 ≤ fuel) where
  entry-Yields :
      (e : Entry) (ids : List ℕ)
      → FitsOne e
      → IsAscending ids
      → Yields (insert_entry fuel (al.split dash (print e)) ids) (λ x. covers e x || member x ids)
  unfolding insert_entry
  entry-Yields (one n) ids small a =
      let e : u32 n ≡ n = omega arith in
      record {
        ids = insert n ids;
        runs =
            rw (law.split_last dash (decimal n) (no_dash n), stoul-decimal n (omega arith))
              (ap (λ k. ok (insert k ids)) e);
        ascending = insert-IsAscending n ids a;
        members = λ x. member-insert x n ids;
      }
  entry-Yields (span first last) ids (small, below) a = record {
    ids = r.ids;
    runs =
        rw
          (
            law.split_more dash (decimal first) (decimal last) (no_dash first),
            law.split_last dash (decimal last) (no_dash last),
            stoul-decimal first (omega arith),
            stoul-decimal last (omega arith),
          )
          (ap (λ k. insert_range fuel k (u32 last) ids) e
            ∙ ap (λ k. insert_range fuel first k ids) e'
            ∙ r.runs);
    ascending = r.ascending;
    members = r.members;
  }
    where
      e : u32 first ≡ first
      e = omega arith

      e' : u32 last ≡ last
      e' = omega arith

      r :
          Yields
            (insert_range fuel first last ids)
            (λ x. (leb first x && leb x last) || member x ids)
      r = insert_range-Yields fuel first last ids below (omega arith) (omega arith) a

  list-Yields :
      (e : Entry) (es : List Entry) (ids : List ℕ)
      → Fits (e ∷ es)
      → IsAscending ids
      → Yields
          (insert_entries al fuel (al.split comma (print_list e es)) ids)
          (λ x. named (e ∷ es) x || member x ids)
  unfolding insert_entries
  list-Yields e [] ids fits a = record {
    ids = r.ids;
    runs = rw (
      law.split_last comma (print e) (print-no_comma e),
      law.trim_none (print e) (print-NoSpace e),
      r.runs,
    );
    ascending = r.ascending;
    members = λ x. r.members x ∙ ground arith;
  }
    where
      r : Yields (insert_entry fuel (al.split dash (print e)) ids) (λ x. covers e x || member x ids)
      r = entry-Yields e ids fits.0 a
  list-Yields e (f ∷ fs) ids fits a =
      let r = entry-Yields e ids fits.0 a in
      let rest = list-Yields f fs r.ids fits.1 r.ascending in
      record {
        ids = rest.ids;
        runs =
            rw
              (
                law.split_more comma (print e) (print_list f fs) (print-no_comma e),
                law.trim_none (print e) (print-NoSpace e),
                r.runs,
              )
              rest.runs;
        ascending = rest.ascending;
        members = λ x. rest.members x ∙ ground (arith, r.members x);
      }

  -- A printed list whose numbers fit is read as the ascending set of the numbers that it names.
  pub ids_from_line-Yields :
      (e : Entry) (es : List Entry)
      → Fits (e ∷ es)
      → Yields (ids_from_line al fuel (print_list e es)) (named (e ∷ es))
  unfolding ids_from_line
  ids_from_line-Yields e es fits = record {
    ids = r.ids;
    runs = r.runs;
    ascending = r.ascending;
    members = λ x. r.members x ∙ ground arith;
  }
    where
      r :
          Yields
            (insert_entries al fuel (al.split comma (print_list e es)) [])
            (λ x. named (e ∷ es) x || member x [])
      r = list-Yields e es [] fits tt

-- A range that ends at the largest 32-bit number is never done: its counter wraps to zero.
pub insert_range-diverges :
    (fuel i : ℕ) (ids : List ℕ) → i < 2 ^ 32 → insert_range fuel i (2 ^ 32 - 1) ids ≡ diverges
unfolding insert_range
insert_range-diverges zero i ids small = refl
insert_range-diverges (suc fuel) i ids small =
    rw go (insert_range-diverges fuel (u32 (i + 1)) (insert i ids) (omega arith))
  where
    go : leb i (2 ^ 32 - 1) ≡ true
    go = ground arith

module _ {al : StringAlgorithms} (law : IsStringAlgorithms al) (fuel : ℕ) where
  -- A line with no text, as of a file that could not be opened, is refused by an exception.
  pub ids_from_line-empty : ids_from_line al fuel [] ≡ invalid_argument
  unfolding ids_from_line insert_entries insert_entry stoul skip_space
  ids_from_line-empty =
      rw (law.split_last comma [] tt, law.trim_none [] tt, law.split_last dash [] tt)
