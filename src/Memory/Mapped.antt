-- ===== src/Memory/Mapped.antt =====
-- The answer of a call for a block, and the exception when there is none.
use boost_job.Common.{ℕ, ◌≡◌, ap, Option, none, some}
use boost_job.Memory.{Outcome, returned, system_error}

-- `if ( failed) throw std::system_error( errno ...); return mem;`
unfoldable pub checked_block : {S : Type 0} → (S → ℕ) → Option ℕ × S → Outcome ℕ × S
checked_block errno (none, s) = (system_error (errno s), s)
checked_block errno (some mem, s) = (returned mem, s)

address_in : ℕ → Outcome ℕ → ℕ
address_in d (returned a) = a
address_in d _ = d

-- A block that is returned is the one that the system gave.
pub checked_block-returned :
    {S : Type 0} (errno : S → ℕ) (r : Option ℕ × S) (a : ℕ) (s : S)
    → checked_block errno r ≡ (returned a, s)
    → r ≡ (some a, s)
unfolding checked_block address_in
checked_block-returned errno (none, t) a s e = absurd (never (ap (λ q. q.0) e))
  where
    never : system_error (errno t) ≡ returned a → ⊥
    never e = cc
checked_block-returned errno (some mem, t) a s e = ap (λ q. (some (address_in a q.0), q.1)) e
