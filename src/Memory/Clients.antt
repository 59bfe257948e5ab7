-- ===== src/Memory/Clients.antt =====
-- The stacks and the objects that live in a memory.
use boost_job.Common.{
  ℕ, ◌+◌, ◌-◌, ◌*◌, ◌/◌, ◌%◌, ◌^◌, ◌≤◌, ◌<◌, ◌≡◌, sym, ap, ◌∙◌, List, ◌∷◌, arith,
}
use native.Mathlib.Nat.{mod-eq_of_lt, le-div_iff_mul-le}
use boost_job.Memory.{
  Outcome, returned, system_error, undefined, NumaMemory, IsNumaMemory, StackContext, stack_of,
  allocate_stack, deallocate_stack, allocate, deallocate_objects, max_size,
}

module _ {State : Type 0} {mapped : State → List (ℕ × ℕ)} {mem : NumaMemory State}
    (law : IsNumaMemory mapped mem) where
  -- The block under a stack that `stack_of` returns.
  stack_of_lem :
      (size : ℕ) (r : Outcome ℕ × State) (c : StackContext) (s' : State)
      → stack_of mem size r ≡ (returned c, s')
      → (vp : ℕ) × (r ≡ (returned vp, s')) × (c ≡ record { size = size; sp = (vp + size) % 2 ^ 64 })
  unfolding stack_of
  stack_of_lem size (returned vp, s) c s' e =
      (vp, ap (λ q. (returned vp, q.1)) e, ap (λ q. value q.0) (sym e))
    where
      value : Outcome StackContext → StackContext
      value (returned x) = x
      value _ = c
  stack_of_lem size (system_error x, s) c s' e = absurd (never (ap (λ q. q.0) e))
    where
      never : system_error x ≡ returned c → ⊥
      never e = cc
  stack_of_lem size (undefined, s) c s' e = absurd (never (ap (λ q. q.0) e))
    where
      never : undefined ≡ returned c → ⊥
      never e = cc

  bottom :
      (vp size : ℕ)
      → vp < 2 ^ 64
      → size < 2 ^ 64
      → ((vp + size) % 2 ^ 64 + 2 ^ 64 - size) % 2 ^ 64 ≡ vp
  bottom vp size h k = omega arith

  -- In a lawful memory, `deallocate` of a stack that `allocate` has returned finds the start of the
  -- block from the stack pointer and leaves in use what was in use before.
  pub deallocate_stack-allocate_stack :
      (size node : ℕ) (s s' : State) (c : StackContext)
      → size < 2 ^ 64
      → allocate_stack mem size node s ≡ (returned c, s')
      → mapped (deallocate_stack mem c s') ≡ mapped s
  unfolding allocate_stack deallocate_stack
  deallocate_stack-allocate_stack size node s s' c small e =
      let (vp, run, shape) = stack_of_lem size (mem.numa_alloc size node s) c s' e in
      let (grows, fits) = law.gives size node vp s s' run in
      ap (λ d. mapped (mem.numa_free ((d.sp + 2 ^ 64 - d.size) % 2 ^ 64) d.size s')) shape
      ∙ ap (λ a. mapped (mem.numa_free a size s')) (bottom vp size fits small)
      ∙ law.takes size vp s' (mapped s) grows

  -- In a lawful memory, for at most `max_size` objects of a positive size: a block that `allocate`
  -- returns has room for all of them, and `deallocate` of as many leaves in use what was in use
  -- before.
  pub deallocate_objects-allocate :
      (size_of node num p : ℕ) (s s' : State)
      → 0 < size_of
      → num ≤ max_size size_of
      → allocate mem size_of node num s ≡ (returned p, s')
      → (mapped s' ≡ (p, num * size_of) ∷ mapped s)
        × (mapped (deallocate_objects mem size_of p num s') ≡ mapped s)
  unfolding allocate deallocate_objects max_size
  deallocate_objects-allocate size_of node num p s s' positive few e =
      let (grows, _) = law.gives (num * size_of % 2 ^ 64) node p s s' e in
      (
        grows ∙ ap (λ n. (p, n) ∷ mapped s) (room num size_of positive few),
        law.takes (num * size_of % 2 ^ 64) p s' (mapped s) grows,
      )
    where
      room :
          (num size_of : ℕ)
          → 0 < size_of
          → num ≤ (2 ^ 64 - 1) / size_of
          → num * size_of % 2 ^ 64 ≡ num * size_of
      room num size_of positive few =
          mod-eq_of_lt (omega (arith, (le-div_iff_mul-le positive).0 few))
