-- ===== src/Memory/Windows.antt =====
-- src/windows/memory.cpp. The functions of the system are parameters; `FillMemory` writes zeros into
-- the new block.
use boost_job.Common.{ℕ, ◌^◌, ◌<◌, ◌≡◌, refl, sym, ap, subst, ◌∙◌, Option, none, some, List, ◌∷◌}
use boost_job.Memory.{Outcome, returned, system_error, NumaMemory, IsNumaMemory}

pub record Kernel (State : Type 0) : Type 0 where
  pub virtual_alloc : ℕ → ℕ → State → Option ℕ × State
  pub fill_memory : ℕ → ℕ → ℕ → State → State
  pub virtual_free : ℕ → State → State
  pub last_error : State → ℕ

module _ {State : Type 0} (k : Kernel State) where
  fill_result : ℕ → Option ℕ × State → Outcome ℕ × State
  fill_result size (none, s) = (system_error (k.last_error s), s)
  fill_result size (some mem, s) = (returned mem, k.fill_memory mem size 0 s)

  unfoldable pub numa_alloc : ℕ → ℕ → State → Outcome ℕ × State
  unfolding fill_result
  numa_alloc size node_id s = fill_result size (k.virtual_alloc size node_id s)

  unfoldable pub numa_free : ℕ → ℕ → State → State
  numa_free mem size s = k.virtual_free mem s

  abbrev pub windows_memory : NumaMemory State
  windows_memory = record { numa_alloc = numa_alloc; numa_free = numa_free }

-- `VirtualFree` takes back the block at an address, whatever its size.
pub record IsKernel {State : Type 0} (mapped : State → List (ℕ × ℕ)) (k : Kernel State)
    : Type 0 where
  pub reserves :
      (size node a : ℕ) (s s' : State)
      → k.virtual_alloc size node s ≡ (some a, s')
      → (mapped s' ≡ (a, size) ∷ mapped s) × (a < 2 ^ 64)
  pub fills : (a size byte : ℕ) (s : State) → mapped (k.fill_memory a size byte s) ≡ mapped s
  pub releases :
      (size a : ℕ) (s : State) (blocks : List (ℕ × ℕ))
      → mapped s ≡ (a, size) ∷ blocks
      → mapped (k.virtual_free a s) ≡ blocks

module _ {State : Type 0} {mapped : State → List (ℕ × ℕ)} {k : Kernel State}
    (law : IsKernel mapped k) where
  fill_result_lem :
      (size node a : ℕ) (r : Option ℕ × State) (s s' : State)
      → k.virtual_alloc size node s ≡ r
      → fill_result k size r ≡ (returned a, s')
      → (mapped s' ≡ (a, size) ∷ mapped s) × (a < 2 ^ 64)
  unfolding fill_result
  fill_result_lem size node a (none, t) s s' m e = absurd (never (ap (λ r. r.0) e))
    where
      never : system_error (k.last_error t) ≡ returned a → ⊥
      never e = cc
  fill_result_lem size node a (some mem, t) s s' m e =
      let (grows, small) = law.reserves size node mem s t m in
      subst (λ b. (mapped s' ≡ (b, size) ∷ mapped s) × (b < 2 ^ 64)) (ap value e)
        (sym (ap (λ r. mapped r.1) e) ∙ law.fills mem size 0 t ∙ grows, small)
    where
      value : Outcome ℕ × State → ℕ
      value (returned x, s) = x
      value (_, s) = mem

  -- On a system whose `VirtualAllocExNuma` and `VirtualFree` keep a list of blocks, `numa_alloc`
  -- and `numa_free` of Windows are a memory.
  pub windows_memory-IsNumaMemory : IsNumaMemory mapped (windows_memory k)
  unfolding numa_alloc numa_free
  windows_memory-IsNumaMemory = record {
    gives =
        λ size node a s s' e. fill_result_lem size node a (k.virtual_alloc size node s) s s' refl e;
    takes = λ size a s blocks e. law.releases size a s blocks e;
  }
