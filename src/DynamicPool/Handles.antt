-- ===== src/DynamicPool/Handles.antt =====
-- The objects of `worker_fiber` in include/boost/job/dynamic_pool.hpp, and how a new one gets into the
-- map. `fibers::fiber` is a parameter: a handle that owns a fiber or none; the destructor of one that
-- owns a fiber, and an assignment to it, end the program.
use boost_job.Common.{ℕ, ◌≡◌, refl, ap, ◌∙◌, Bool, true, false, Option, none, some}

-- A handle after a move, and what it was moved from; an assignment that ends the program is `none`.
pub record FiberHandle (F : Type 0) : Type 0 where
  pub empty : F
  pub started : ℕ → F
  pub joinable : F → Bool
  pub move_construct : F → F × F
  pub move_assign : F → F → Option (F × F)

pub record IsFiberHandle {F : Type 0} (owner : F → Option ℕ) (h : FiberHandle F) : Type 0 where
  pub owns_none : owner h.empty ≡ none
  pub owns : (k : ℕ) → owner (h.started k) ≡ some k
  pub asks : (f : F) → h.joinable f ≡ elim (owner f) [ none ↦ false | some k ↦ true ]
  pub constructs :
      (f : F) → (owner (h.move_construct f).0 ≡ owner f) × (owner (h.move_construct f).1 ≡ none)
  pub assigns :
      (f g : F)
      → owner f ≡ none
      → (r : F × F) × (h.move_assign f g ≡ some r) × (owner r.0 ≡ owner g) × (owner r.1 ≡ none)

module _ {F : Type 0} (h : FiberHandle F) where
  pub record Handle : Type 0 where
    pub fib : F
    pub terminated : Bool

  -- The constructors.
  unfoldable pub no_fiber : Handle
  no_fiber = record { fib = h.empty; terminated = false }

  unfoldable pub new_fiber : ℕ → Handle
  new_fiber k = record { fib = h.started k; terminated = false }

  -- The new object and the old one.
  unfoldable pub moved : Handle → Handle × Handle
  moved other =
      let r = h.move_construct other.fib in
      (
        record { fib = r.0; terminated = other.terminated },
        record { fib = r.1; terminated = false },
      )

  -- What an assignment of the handles leaves of two objects with this mark.
  handed : Bool → Option (F × F) → Option (Handle × Handle)
  handed mark none = none
  handed mark (some r) =
      some (record { fib = r.0; terminated = mark }, record { fib = r.1; terminated = false })

  -- `operator=`; `same` tells whether both are one object.
  unfoldable pub assigned : Bool → Handle → Handle → Option (Handle × Handle)
  unfolding handed
  assigned true this other = some (this, this)
  assigned false this other = handed other.terminated (h.move_assign this.fib other.fib)

  -- The destructor of an object ends the program if it owns a fiber.
  ended : Bool → Option (Unit {0})
  ended true = none
  ended false = some tt

  unfoldable pub dropped : Handle → Option (Unit {0})
  unfolding ended
  dropped w = ended (h.joinable w.fib)

  behind : Handle → Option (Unit {0}) → Option Handle
  behind w none = none
  behind w (some _) = some w

  drop_second : Option (Handle × Handle) → Option Handle
  unfolding dropped behind
  drop_second none = none
  drop_second (some (w, old)) = behind w (dropped old)

  -- `worker_fiber f( ...); ( * fibs)[id] = std::move( f);` for an id that is not in the map: the entry
  -- is made empty and assigned to, and `f` ends.
  unfoldable pub inserted : ℕ → Option Handle
  unfolding no_fiber new_fiber assigned drop_second
  inserted k = drop_second (assigned false no_fiber (new_fiber k))

  module _ {owner : F → Option ℕ} (law : IsFiberHandle owner h) where
    -- The insertion ends with an entry that owns the new fiber, and that is not marked.
    pub inserted_lem :
        (k : ℕ)
        → (w : Handle) × (inserted k ≡ some w) × (owner w.fib ≡ some k) × (w.terminated ≡ false)
    unfolding inserted new_fiber no_fiber assigned dropped
    inserted_lem k =
        let (r, run, new, old) = law.assigns h.empty (h.started k) law.owns_none in
        let free = law.asks r.1 ∙ ap (λ o. elim o [ none ↦ false | some k ↦ true ]) old in
        (
          record { fib = r.0; terminated = false },
          ap (λ o. drop_second (handed false o)) run
              ∙ ap (λ b. behind (record { fib = r.0; terminated = false }) (ended b)) free,
          new ∙ law.owns k,
          refl,
        )

    -- A move hands the fiber and the mark over; what is left owns no fiber, so its end does nothing.
    pub moved_lem :
        (w : Handle)
        → (owner (moved w).0.fib ≡ owner w.fib)
          × ((moved w).0.terminated ≡ w.terminated)
          × (dropped (moved w).1 ≡ some tt)
    unfolding moved dropped
    moved_lem w =
        let (new, old) = law.constructs w.fib in
        (
          new,
          refl,
          ap ended (
              law.asks (h.move_construct w.fib).1
              ∙ ap (λ o. elim o [ none ↦ false | some k ↦ true ]) old),
        )
