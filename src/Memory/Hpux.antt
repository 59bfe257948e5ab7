-- ===== src/Memory/Hpux.antt =====
-- src/hpux/memory.cpp: a mapping that is not bound to a node. `mmap` is a parameter.
use boost_job.Common.{ℕ, ◌^◌, ◌<◌, ◌≡◌, Option, some, List, ◌∷◌}
use boost_job.Memory.{Outcome, NumaMemory, IsNumaMemory}
use boost_job.Memory.Mapped.{checked_block, checked_block-returned}

pub record Kernel (State : Type 0) : Type 0 where
  pub mmap : ℕ → State → Option ℕ × State
  pub munmap : ℕ → ℕ → State → State
  pub errno : State → ℕ

module _ {State : Type 0} (k : Kernel State) where
  unfoldable pub numa_alloc : ℕ → ℕ → State → Outcome ℕ × State
  numa_alloc size node_id s = checked_block k.errno (k.mmap size s)

  unfoldable pub numa_free : ℕ → ℕ → State → State
  numa_free mem size s = k.munmap mem size s

  abbrev pub hpux_memory : NumaMemory State
  hpux_memory = record { numa_alloc = numa_alloc; numa_free = numa_free }

pub record IsKernel {State : Type 0} (mapped : State → List (ℕ × ℕ)) (k : Kernel State)
    : Type 0 where
  pub maps :
      (size a : ℕ) (s s' : State)
      → k.mmap size s ≡ (some a, s')
      → (mapped s' ≡ (a, size) ∷ mapped s) × (a < 2 ^ 64)
  pub unmaps :
      (size a : ℕ) (s : State) (blocks : List (ℕ × ℕ))
      → mapped s ≡ (a, size) ∷ blocks
      → mapped (k.munmap a size s) ≡ blocks

module _ {State : Type 0} {mapped : State → List (ℕ × ℕ)} {k : Kernel State}
    (law : IsKernel mapped k) where
  -- On a kernel whose `mmap` and `munmap` keep a list of blocks, `numa_alloc` and `numa_free` of
  -- HP-UX are a memory.
  pub hpux_memory-IsNumaMemory : IsNumaMemory mapped (hpux_memory k)
  unfolding numa_alloc numa_free
  hpux_memory-IsNumaMemory = record {
    gives = λ size node a s s' e.
        law.maps size a s s' (checked_block-returned k.errno (k.mmap size s) a s' e);
    takes = λ size a s blocks e. law.unmaps size a s blocks e;
  }
