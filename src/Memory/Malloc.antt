-- ===== src/Memory/Malloc.antt =====
-- src/memory.cpp: memory of any node, for systems without one of the other files. `malloc` and
-- `free` are parameters.
use boost_job.Common.{ℕ, ◌^◌, ◌<◌, ◌≡◌, Option, some, List, ◌∷◌}
use boost_job.Memory.{Outcome, NumaMemory, IsNumaMemory}
use boost_job.Memory.Mapped.{checked_block, checked_block-returned}

pub record Library (State : Type 0) : Type 0 where
  pub malloc : ℕ → State → Option ℕ × State
  pub free : ℕ → State → State
  pub errno : State → ℕ

module _ {State : Type 0} (lib : Library State) where
  unfoldable pub numa_alloc : ℕ → ℕ → State → Outcome ℕ × State
  numa_alloc size node_id s = checked_block lib.errno (lib.malloc size s)

  unfoldable pub numa_free : ℕ → ℕ → State → State
  numa_free mem size s = lib.free mem s

  abbrev pub malloc_memory : NumaMemory State
  malloc_memory = record { numa_alloc = numa_alloc; numa_free = numa_free }

-- `free` takes back the block at an address, whatever its size.
pub record IsLibrary {State : Type 0} (mapped : State → List (ℕ × ℕ)) (lib : Library State)
    : Type 0 where
  pub gives :
      (size a : ℕ) (s s' : State)
      → lib.malloc size s ≡ (some a, s')
      → (mapped s' ≡ (a, size) ∷ mapped s) × (a < 2 ^ 64)
  pub takes :
      (size a : ℕ) (s : State) (blocks : List (ℕ × ℕ))
      → mapped s ≡ (a, size) ∷ blocks
      → mapped (lib.free a s) ≡ blocks

-- With a `malloc` and a `free` that keep a list of blocks, they are a memory.
pub malloc_memory-IsNumaMemory :
    {State : Type 0} {mapped : State → List (ℕ × ℕ)} {lib : Library State}
    → IsLibrary mapped lib
    → IsNumaMemory mapped (malloc_memory lib)
unfolding numa_alloc numa_free
malloc_memory-IsNumaMemory {lib = lib} law = record {
  gives = λ size node a s s' e.
      law.gives size a s s' (checked_block-returned lib.errno (lib.malloc size s) a s' e);
  takes = λ size a s blocks e. law.takes size a s blocks e;
}
