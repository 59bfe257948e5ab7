-- ===== src/Examples/Known.antt =====
-- What the jobs of the example know of each other: their arguments, and the results so far.
use boost_job.Common.{
  ℕ, zero, suc, ◌≤◌, ◌<◌, ◌≡◌, inl, inr, refl, sym, ap, ◌∙◌, true, Bool-cases, Option, none, some,
  List, [], ◌∷◌, ◌++◌, length, get_elem?, ◌==◌, if◌then◌else◌, arith, All,
}
use boost_job.Examples.{ℤ, pos, negsuc}
use boost_job.Examples.Reference.{fib}
use boost_job.Examples.Crew.{Call, Other, unsent, sent, Wait, value_of}

-- A list that grows at its end keeps its elements.
pub get_elem?-append {ℓ} :
    {A : Type ℓ} (xs ys : List A) (i : ℕ) (a : A)
    → get_elem? xs i ≡ some a
    → get_elem? (xs ++ ys) i ≡ some a
get_elem?-append [] ys i a e = absurd cc
get_elem?-append (x ∷ xs) ys zero a e = e
get_elem?-append (x ∷ xs) ys (suc i) a e = get_elem?-append xs ys i a e

pub get_elem?-append_last {ℓ} :
    {A : Type ℓ} (xs : List A) (a : A) → get_elem? (xs ++ a ∷ []) (length xs) ≡ some a
get_elem?-append_last [] a = refl
get_elem?-append_last (x ∷ xs) a = get_elem?-append_last xs a

-- An argument for which the sum is an `int`.
abbrev pub IsArg : ℤ → Type 0
IsArg (pos m) = (0 < m) × (m ≤ 46)
IsArg (negsuc m) = ⊥

abbrev pub IsCall : List ℤ → Call → Type 0
IsCall args c = IsArg c.arg × (get_elem? args c.id ≡ some c.arg)

-- The other job of one whose argument is `3 + m`: its argument, or its place.
abbrev pub IsOther : List ℤ → ℕ → ℕ → Other → Type 0
IsOther args id m (unsent b) = b ≡ pos (suc (suc m))
IsOther args id m (sent i) = (get_elem? args i ≡ some (pos (suc (suc m)))) × (id < i)

pub record IsWait (args : List ℤ) (w : Wait) : Type 0 where
  pub m : ℕ
  pub small : suc (suc (suc m)) ≤ 46
  pub own : get_elem? args w.id ≡ some (pos (suc (suc (suc m))))
  pub left : get_elem? args w.f1 ≡ some (pos (suc m))
  pub left_later : w.id < w.f1
  pub other : IsOther args w.id m w.f2

pub record IsResult (args : List ℤ) (r : ℕ × ℤ) : Type 0 where
  pub m : ℕ
  pub own : get_elem? args r.0 ≡ some (pos m)
  pub sum : r.1 ≡ pos (fib m)

-- More submissions change nothing of that.
pub IsCall-append : (args more : List ℤ) (c : Call) → IsCall args c → IsCall (args ++ more) c
IsCall-append args more c (h, e) = (h, get_elem?-append args more c.id c.arg e)

IsOther-append :
    (args more : List ℤ) (id m : ℕ) (o : Other)
    → IsOther args id m o
    → IsOther (args ++ more) id m o
IsOther-append args more id m (unsent b) h = h
IsOther-append args more id m (sent i) (e, later) =
    (get_elem?-append args more i (pos (suc (suc m))) e, later)

pub IsWait-append : (args more : List ℤ) (w : Wait) → IsWait args w → IsWait (args ++ more) w
IsWait-append args more w h = record {
  m = h.m;
  small = h.small;
  own = get_elem?-append args more w.id (pos (suc (suc (suc h.m)))) h.own;
  left = get_elem?-append args more w.f1 (pos (suc h.m)) h.left;
  left_later = h.left_later;
  other = IsOther-append args more w.id h.m w.f2 h.other;
}

pub IsResult-append : (args more : List ℤ) (r : ℕ × ℤ) → IsResult args r → IsResult (args ++ more) r
IsResult-append args more r h = record {
  m = h.m;
  own = get_elem?-append args more r.0 (pos h.m) h.own;
  sum = h.sum;
}

-- A value found is that of the job's argument.
int_in : ℤ → Option ℤ → ℤ
int_in d none = d
int_in d (some z) = z

num_in : ℕ → Option ℤ → ℕ
num_in d (some (pos m)) = m
num_in d _ = d

pub same_number : (k m : ℕ) (o : Option ℤ) → o ≡ some (pos k) → o ≡ some (pos m) → k ≡ m
unfolding num_in
same_number k m o e f = ap (num_in k) (sym e ∙ f)

eq_lem : (i j : ℕ) → (i == j) ≡ true → i ≡ j
eq_lem i j e = ground arith

pub value_of_lem :
    (args : List ℤ) (rs : List (ℕ × ℤ)) (i k : ℕ) (x : ℤ)
    → All (IsResult args) rs
    → get_elem? args i ≡ some (pos k)
    → value_of i rs ≡ some x
    → x ≡ pos (fib k)
unfolding int_in
value_of_lem args [] i k x h own e = absurd cc
value_of_lem args ((j, v) ∷ rs) i k x (a, h) own e = elim (Bool-cases (i == j)) [
  | inl same ↦
      let found = ap (λ b. if b then some v else value_of i rs) (sym same) ∙ e in
      let key = ap (get_elem? args) (eq_lem i j same) in
      sym (ap (int_in x) found)
      ∙ a.sum
      ∙ ap (λ m. pos (fib m)) (same_number a.m k (get_elem? args i) (key ∙ a.own) own)
  | inr other ↦
      value_of_lem args rs i k x h own
        (ap (λ b. if b then some v else value_of i rs) (sym other) ∙ e)
]

-- A result is found once it is there, and stays.
pub value_of_new : (i j : ℕ) (v : ℤ) (rs : List (ℕ × ℤ)) → j ≡ i → value_of i ((j, v) ∷ rs) ≡ some v
value_of_new i j v rs e = ap (λ b. if b then some v else value_of i rs) (yes_lem i j e)
  where
    yes_lem : (i j : ℕ) → j ≡ i → (i == j) ≡ true
    yes_lem i j e = ground arith

pub value_of_more :
    (i j : ℕ) (v x : ℤ) (rs : List (ℕ × ℤ))
    → value_of i rs ≡ some x
    → (y : ℤ) × (value_of i ((j, v) ∷ rs) ≡ some y)
value_of_more i j v x rs e = elim (Bool-cases (i == j)) [
  | inl same ↦ (v, ap (λ b. if b then some v else value_of i rs) same)
  | inr other ↦ (x, ap (λ b. if b then some v else value_of i rs) other ∙ e)
]
