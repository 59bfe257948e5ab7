-- ===== src/Text.antt =====
-- Lines of text as lists of byte values, and `std::stoul` in base ten, on a 64-bit `unsigned long`.
pub mod Decimal
use boost_job.Common.{
  ℕ, ◌+◌, ◌-◌, ◌*◌, ◌%◌, ◌^◌, Bool, ◌&&◌, ◌||◌, List, [], ◌∷◌, ltb, leb, ◌==◌, if◌then◌else◌,
}

abbrev pub Bytes : Type 0
Bytes = List ℕ

-- A value, or one of the standard's exceptions; `diverges` marks a loop that is out of fuel, and
-- `undefined` what has no meaning in C++.
pub data Result (A : Type 0) : Type 0 where
  ok : A → Result A
  invalid_argument out_of_range diverges undefined : Result A

infixl 5 ◌>>=◌
abbrev pub ◌>>=◌ : {A B : Type 0} → Result A → (A → Result B) → Result B
ok a >>= k = k a
invalid_argument >>= k = invalid_argument
out_of_range >>= k = out_of_range
diverges >>= k = diverges
undefined >>= k = undefined

-- `isspace`: blank, and the control characters from tab to carriage return.
abbrev pub is_space : ℕ → Bool
is_space c = (c == 32) || (leb 9 c && leb c 13)

abbrev pub is_digit : ℕ → Bool
is_digit c = leb 48 c && leb c 57

unfoldable pub skip_space : Bytes → Bytes
skip_space [] = []
skip_space (c ∷ cs) = if is_space c then skip_space cs else c ∷ cs

-- The digits from here on, behind a prefix of value `acc`.
unfoldable pub read_digits : ℕ → Bytes → ℕ
read_digits acc [] = acc
read_digits acc (c ∷ cs) =
    let more = read_digits (acc * 10 + (c - 48)) cs in if is_digit c then more else acc

in_range : ℕ → Result ℕ
in_range v = if ltb v (2 ^ 64) then ok v else out_of_range

-- With no digit there is no conversion.
unsigned : Bytes → Result ℕ
unfolding in_range
unsigned [] = invalid_argument
unsigned (c ∷ cs) = if is_digit c then in_range (read_digits 0 (c ∷ cs)) else invalid_argument

negated : ℕ → ℕ
negated v = (2 ^ 64 - v) % 2 ^ 64

-- A minus sign negates the value modulo 2 ^ 64.
signed : Bytes → Result ℕ
unfolding unsigned negated
signed [] = invalid_argument
signed (c ∷ cs) =
    if c == 45
    then (unsigned cs >>= λ v. ok (negated v))
    else if c == 43
    then unsigned cs
    else unsigned (c ∷ cs)

unfoldable pub stoul : Bytes → Result ℕ
unfolding signed skip_space
stoul s = signed (skip_space s)
