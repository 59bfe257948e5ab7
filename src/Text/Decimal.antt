-- ===== src/Text/Decimal.antt =====
-- Decimal notation, and that `stoul` reads it back.
use boost_job.Common.{
  ℕ, zero, suc, ◌+◌, ◌*◌, ◌/◌, ◌%◌, ◌^◌, ◌<◌, ◌≡◌, refl, ◌≢◌, false, ◌∙◌, ap, true, false, [], ◌∷◌,
  arith, ltb, ◌==◌, if◌then◌else◌, Bool-cases, inl, inr,
}
use boost_job.Text.{Bytes, ok, is_digit, is_space, skip_space, read_digits, stoul}

digits : ℕ → ℕ → Bytes → Bytes
digits zero n rest = rest
digits (suc k) n rest =
    let more = digits k (n / 10) ((48 + n % 10) ∷ rest) in
    if ltb n 10 then (48 + n) ∷ rest else more

unfoldable pub decimal : ℕ → Bytes
unfolding digits
decimal n = digits (suc n) n []

-- A text of digits only.
abbrev pub AllDigits : Bytes → Type 0
AllDigits [] = Unit {0}
AllDigits (c ∷ cs) = (is_digit c ≡ true) × AllDigits cs

digits-AllDigits : (k n : ℕ) (rest : Bytes) → AllDigits rest → AllDigits (digits k n rest)
unfolding digits
digits-AllDigits zero n rest h = h
digits-AllDigits (suc k) n rest h = elim (Bool-cases (ltb n 10)) [
  | inl small ↦ rw small (ground arith, h)
  | inr large ↦ rw large (digits-AllDigits k (n / 10) _ (ground arith, h))
]

pub decimal-AllDigits : (n : ℕ) → AllDigits (decimal n)
unfolding decimal
decimal-AllDigits n = digits-AllDigits (suc n) n [] tt

digit_step :
    (acc d : ℕ) (rest : Bytes)
    → d < 10
    → read_digits acc ((48 + d) ∷ rest) ≡ read_digits (acc * 10 + d) rest
unfolding read_digits
digit_step acc d rest h = rw digit (ap (λ a. read_digits a rest) (omega arith))
  where
    digit : is_digit (48 + d) ≡ true
    digit = ground arith

read_digits-digits :
    (k n : ℕ) (rest : Bytes) → n < k → read_digits 0 (digits k n rest) ≡ read_digits n rest
unfolding digits
read_digits-digits zero n rest h = absurd (omega arith)
read_digits-digits (suc k) n rest h = elim (Bool-cases (ltb n 10)) [
  | inl small ↦
      rw small (digit_step 0 n rest (ground arith) ∙ ap (λ a. read_digits a rest) (omega arith))
  | inr large ↦ rw large (
      read_digits-digits k (n / 10) _ (ground arith)
      ∙ digit_step (n / 10) (n % 10) rest (omega arith)
      ∙ ap (λ a. read_digits a rest) (omega arith))
]

pub read_digits-decimal : (n : ℕ) → read_digits 0 (decimal n) ≡ n
unfolding decimal
read_digits-decimal n = read_digits-digits (suc n) n [] (omega arith) ∙ end
  where
    end : read_digits n [] ≡ n
    end = unfold read_digits in refl

digits-ne-nil : (k n : ℕ) (c : ℕ) (rest : Bytes) → digits k n (c ∷ rest) ≢ []
unfolding digits
digits-ne-nil zero n c rest e = cc
digits-ne-nil (suc k) n c rest e = elim (Bool-cases (ltb n 10)) [
  | inl small ↦ cc (rw small at e)
  | inr large ↦ digits-ne-nil k (n / 10) _ _ (rw large at e)
]

pub decimal-ne-nil : (n : ℕ) → decimal n ≢ []
unfolding decimal digits
decimal-ne-nil n e = elim (Bool-cases (ltb n 10)) [
  | inl small ↦ cc (rw small at e)
  | inr large ↦ digits-ne-nil n (n / 10) _ _ (rw large at e)
]

-- On a text of digits `stoul` reads them all.
pub stoul-digits :
    (s : Bytes) → s ≢ [] → AllDigits s → read_digits 0 s < 2 ^ 64 → stoul s ≡ ok (read_digits 0 s)
unfolding stoul skip_space
stoul-digits [] ne h small = absurd (ne refl)
stoul-digits (c ∷ cs) ne (d, h) small = rw (not_space, not_minus, not_plus, d, below)
  where
    not_space : is_space c ≡ false
    not_space = ground arith

    not_minus : (c == 45) ≡ false
    not_minus = ground arith

    not_plus : (c == 43) ≡ false
    not_plus = ground arith

    below : ltb (read_digits 0 (c ∷ cs)) (2 ^ 64) ≡ true
    below = ground arith

-- What is printed in decimal is read back.
pub stoul-decimal : (n : ℕ) → n < 2 ^ 64 → stoul (decimal n) ≡ ok n
stoul-decimal n small =
    stoul-digits (decimal n) (decimal-ne-nil n) (decimal-AllDigits n)
      (omega (arith, read_digits-decimal n))
    ∙ ap ok (read_digits-decimal n)
