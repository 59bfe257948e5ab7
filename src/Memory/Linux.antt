-- ===== src/Memory/Linux.antt =====
-- src/linux/memory.cpp. `mmap` and `mbind` of the kernel are parameters.
use boost_job.Common.{
  ◌≢◌, ◌⊎◌, inl, inr, ℕ, ◌-◌, ◌^◌, ◌<◌, ◌≡◌, refl, sym, ap, subst, ◌∙◌, Bool, true, false, Option,
  none, some, List, ◌∷◌, ltb, ◌==◌, if◌then◌else◌,
}
use boost_job.Memory.{Outcome, returned, system_error, undefined, NumaMemory, IsNumaMemory}

-- The system calls with their results: the address, and whether the binding succeeded.
pub record Kernel (State : Type 0) : Type 0 where
  pub mmap : ℕ → State → Option ℕ × State
  pub mbind : ℕ → ℕ → ℕ → State → Bool × State
  pub munmap : ℕ → ℕ → State → State
  pub errno : State → ℕ

pub record IsKernel {State : Type 0} (mapped : State → List (ℕ × ℕ)) (k : Kernel State)
    : Type 0 where
  pub maps :
      (size a : ℕ) (s s' : State)
      → k.mmap size s ≡ (some a, s')
      → (mapped s' ≡ (a, size) ∷ mapped s) × (a < 2 ^ 64)
  pub maps_not : (size : ℕ) (s s' : State) → k.mmap size s ≡ (none, s') → mapped s' ≡ mapped s
  pub binds : (a size mask : ℕ) (s : State) → mapped (k.mbind a size mask s).1 ≡ mapped s
  pub unmaps :
      (size a : ℕ) (s : State) (blocks : List (ℕ × ℕ))
      → mapped s ≡ (a, size) ∷ blocks
      → mapped (k.munmap a size s) ≡ blocks

-- `1 << node_id` in 32-bit `int`, widened with its sign.
unfoldable pub node_mask : ℕ → Outcome ℕ
node_mask node_id =
    if ltb node_id 31
    then returned (2 ^ node_id)
    else if node_id == 31
    then returned (2 ^ 64 - 2 ^ 31)
    else undefined

node_mask_lem : (n e : ℕ) → node_mask n ≢ system_error e
unfolding node_mask
node_mask_lem n e = never (2 ^ n) (ltb n 31) (n == 31)
  where
    never :
        (mask : ℕ) (b c : Bool)
        → (if b then returned mask else if c then returned (2 ^ 64 - 2 ^ 31) else undefined)
          ≢ system_error e
    never mask true c h = cc
    never mask false true h = cc
    never mask false false h = cc

-- What the caller of `numa_alloc` may get for a mapped block.
abbrev Answers : ℕ → Outcome ℕ → Type 0
Answers a o = (o ≡ returned a) ⊎ (((e : ℕ) × (o ≡ system_error e)) ⊎ (o ≡ undefined))

module _ {State : Type 0} (k : Kernel State) where
  -- `mbind` and the test of its result.
  unfoldable pub bind_result : ℕ → Bool × State → Outcome ℕ × State
  bind_result mem (true, s) = (returned mem, s)
  bind_result mem (false, s) = (system_error (k.errno s), s)

  unfoldable pub bind : ℕ → ℕ → Outcome ℕ → State → Outcome ℕ × State
  unfolding bind_result
  bind mem size (returned mask) s = bind_result mem (k.mbind mem size mask s)
  bind mem size (system_error e) s = (system_error e, s)
  bind mem size undefined s = (undefined, s)

  unfoldable pub map_result : ℕ → ℕ → Option ℕ × State → Outcome ℕ × State
  unfolding bind
  map_result size node_id (none, s) = (system_error (k.errno s), s)
  map_result size node_id (some mem, s) = bind mem size (node_mask node_id) s

  unfoldable pub numa_alloc : ℕ → ℕ → State → Outcome ℕ × State
  unfolding map_result
  numa_alloc size node_id s = map_result size node_id (k.mmap size s)

  unfoldable pub numa_free : ℕ → ℕ → State → State
  numa_free mem size s = k.munmap mem size s

  abbrev pub linux_memory : NumaMemory State
  linux_memory = record { numa_alloc = numa_alloc; numa_free = numa_free }

  module _ {mapped : State → List (ℕ × ℕ)} (law : IsKernel mapped k) where
    -- A block that `bind` returns is the one that was mapped.
    bind_result_lem :
        (mem a : ℕ) (r : Bool × State) (s' : State)
        → bind_result mem r ≡ (returned a, s')
        → (a ≡ mem) × (s' ≡ r.1)
    unfolding bind_result
    bind_result_lem mem a (true, s) s' e = (ap value (sym e), ap (λ r. r.1) (sym e))
      where
        value : Outcome ℕ × State → ℕ
        value (returned x, s) = x
        value (system_error x, s) = mem
        value (undefined, s) = mem
    bind_result_lem mem a (false, s) s' e = absurd (never (ap (λ r. r.0) e))
      where
        never : system_error (k.errno s) ≡ returned a → ⊥
        never e = cc

    bind_lem :
        (mem size a : ℕ) (mask : Outcome ℕ) (s s' : State)
        → bind mem size mask s ≡ (returned a, s')
        → (a ≡ mem) × (mapped s' ≡ mapped s)
    unfolding bind
    bind_lem mem size a (returned m) s s' e =
        let (same, after) = bind_result_lem mem a (k.mbind mem size m s) s' e in
        (same, ap mapped after ∙ law.binds mem size m s)
    bind_lem mem size a (system_error x) s s' e = absurd (never (ap (λ r. r.0) e))
      where
        never : system_error x ≡ returned a → ⊥
        never e = cc
    bind_lem mem size a undefined s s' e = absurd (never (ap (λ r. r.0) e))
      where
        never : undefined ≡ returned a → ⊥
        never e = cc

    map_result_lem :
        (size node a : ℕ) (r : Option ℕ × State) (s s' : State)
        → k.mmap size s ≡ r
        → map_result size node r ≡ (returned a, s')
        → (mapped s' ≡ (a, size) ∷ mapped s) × (a < 2 ^ 64)
    unfolding map_result
    map_result_lem size node a (none, t) s s' m e = absurd (never (ap (λ r. r.0) e))
      where
        never : system_error (k.errno t) ≡ returned a → ⊥
        never e = cc
    map_result_lem size node a (some mem, t) s s' m e =
        let (same, after) = bind_lem mem size a (node_mask node) t s' e in
        let (grows, small) = law.maps size mem s t m in
        (
          after ∙ grows ∙ ap (λ x. (x, size) ∷ mapped s) (sym same),
          subst (λ x. x < 2 ^ 64) (sym same) small,
        )

    -- On a kernel whose `mmap` and `munmap` keep a list of blocks, `numa_alloc` and `numa_free` of
    -- Linux are a memory: a returned block is new and in use, and freeing it takes it out again.
    pub linux_memory-IsNumaMemory : IsNumaMemory mapped linux_memory
    unfolding numa_alloc numa_free
    linux_memory-IsNumaMemory = record {
      gives = λ size node a s s' e. map_result_lem size node a (k.mmap size s) s s' refl e;
      takes = λ size a s blocks e. law.unmaps size a s blocks e;
    }

    -- Behind `mmap`, no branch gives the block back.
    bind_result-mapped :
        (mem : ℕ) (r : Bool × State)
        → (mapped (bind_result mem r).1 ≡ mapped r.1) × Answers mem (bind_result mem r).0
    unfolding bind_result
    bind_result-mapped mem (true, s) = (refl, inl refl)
    bind_result-mapped mem (false, s) = (refl, inr (inl (k.errno s, refl)))

    bind-mapped :
        (mem size : ℕ) (mask : Outcome ℕ) (s : State)
        → ((e : ℕ) → mask ≢ system_error e)
        → (mapped (bind mem size mask s).1 ≡ mapped s) × Answers mem (bind mem size mask s).0
    unfolding bind
    bind-mapped mem size (returned m) s ne =
        let (same, answers) = bind_result-mapped mem (k.mbind mem size m s) in
        (same ∙ law.binds mem size m s, answers)
    bind-mapped mem size (system_error e) s ne = absurd (ne e refl)
    bind-mapped mem size undefined s ne = (refl, inr (inr refl))

    -- Every run of `numa_alloc` on a kernel whose `mmap` keeps a list of blocks: either `mmap` fails,
    -- and the caller gets an error with the blocks in use unchanged; or it maps a block, which is in
    -- use afterwards whether the caller gets its address, gets an error of `mbind`, or the shift by
    -- the node has no meaning.
    pub numa_alloc-mapped :
        (size node : ℕ) (s : State)
        → (((k.mmap size s).0 ≡ none)
            × ((e : ℕ) × ((numa_alloc size node s).0 ≡ system_error e))
            × (mapped (numa_alloc size node s).1 ≡ mapped s))
          ⊎ ((a : ℕ) × ((k.mmap size s).0 ≡ some a)
              × (mapped (numa_alloc size node s).1 ≡ (a, size) ∷ mapped s)
              × (((numa_alloc size node s).0 ≡ returned a)
                  ⊎ (((e : ℕ) × ((numa_alloc size node s).0 ≡ system_error e))
                      ⊎ ((numa_alloc size node s).0 ≡ undefined))))
    unfolding numa_alloc map_result
    numa_alloc-mapped size node s = branch (k.mmap size s) refl
      where
        branch :
            (r : Option ℕ × State)
            → k.mmap size s ≡ r
            → ((r.0 ≡ none)
                × ((e : ℕ) × ((map_result size node r).0 ≡ system_error e))
                × (mapped (map_result size node r).1 ≡ mapped s))
              ⊎ ((a : ℕ) × (r.0 ≡ some a)
                  × (mapped (map_result size node r).1 ≡ (a, size) ∷ mapped s)
                  × Answers a (map_result size node r).0)
        branch (none, t) m = inl (refl, (k.errno t, refl), law.maps_not size s t m)
        branch (some a, t) m =
            let (same, answers) = bind-mapped a size (node_mask node) t (node_mask_lem node) in
            inr (a, refl, same ∙ (law.maps size a s t m).0, answers)
