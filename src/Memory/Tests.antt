-- ===== src/Memory/Tests.antt =====
-- A kernel that maps every block at one address, and refuses to bind blocks of 13 bytes.
use boost_job.Common.{
  ℕ, ◌*◌, ◌≡◌, refl, some, List, [], ◌∷◌, ◌==◌, not, arith, ap, ◌≤◌, sym, Option, none, ◌∙◌,
}
use boost_job.Memory.{
  returned, system_error, IsNumaMemory, StackContext, allocate_stack, deallocate_stack, stack_of,
  allocate, deallocate_objects, max_size,
}
use boost_job.Memory.Linux.{
  Kernel, IsKernel, node_mask, map_result, bind, bind_result, numa_alloc, linux_memory,
  linux_memory-IsNumaMemory,
}
use boost_job.Memory.Clients.{deallocate_stack-allocate_stack, deallocate_objects-allocate}

abbrev Blocks : Type 0
Blocks = List (ℕ × ℕ)

abbrev kernel : Kernel Blocks
kernel = record {
  mmap = λ size s. (some 4096, (4096, size) ∷ s);
  mbind = λ a size mask s. (not (size == 13), s);
  munmap = λ a size s. elim s [ [] ↦ [] | b ∷ bs ↦ bs ];
  errno = λ s. 12;
}

abbrev blocks : Blocks → Blocks
blocks s = s

abbrev address : Option ℕ × Blocks → ℕ
address (some a, s) = a
address (none, s) = 4096

kernel-IsKernel : IsKernel blocks kernel
kernel-IsKernel = record {
  maps = λ size a s s' e.
      let same : 4096 ≡ a = ap address e in
      (sym (ap (λ r. r.1) e) ∙ ap (λ x. (x, size) ∷ s) same, omega (arith, same));
  maps_not = λ size s s' e. absurd (never size s (ap (λ r. r.0) e));
  binds = λ a size mask s. refl;
  unmaps = λ size a s bs e. ap (λ s. elim s [ [] ↦ [] | b ∷ bs ↦ bs ]) e;
}
  where
    found : ℕ → Option ℕ
    found x = some x

    never : (size : ℕ) (s : Blocks) → found 4096 ≡ none → ⊥
    never size s e = cc

abbrev block : ℕ → Blocks
block size = (4096, size) ∷ []

memory-IsNumaMemory : IsNumaMemory blocks (linux_memory kernel)
memory-IsNumaMemory = linux_memory-IsNumaMemory kernel kernel-IsKernel

abbrev stack : StackContext
stack = record { size = 65536; sp = 69632 }

stack_run : allocate_stack (linux_memory kernel) 65536 3 [] ≡ (returned stack, block 65536)
unfolding allocate_stack stack_of numa_alloc map_result bind bind_result node_mask
stack_run = refl

deallocate_stack-allocate_stack_example :
    deallocate_stack (linux_memory kernel) stack (block 65536) ≡ []
deallocate_stack-allocate_stack_example =
    deallocate_stack-allocate_stack memory-IsNumaMemory 65536 3 [] (block 65536) stack (omega arith)
      stack_run

object_run : allocate (linux_memory kernel) 48 0 10 [] ≡ (returned 4096, block 480)
unfolding allocate numa_alloc map_result bind bind_result node_mask
object_run = refl

ten_fit : 10 ≤ max_size 48
unfolding max_size
ten_fit = omega arith

deallocate_objects-allocate_example :
    (block 480 ≡ block (10 * 48))
    × (deallocate_objects (linux_memory kernel) 48 4096 10 (block 480) ≡ [])
deallocate_objects-allocate_example =
    deallocate_objects-allocate memory-IsNumaMemory 48 0 10 4096 [] (block 480) (omega arith)
      ten_fit object_run

-- The block of 13 bytes is in use though the caller gets an error.
leak_run : numa_alloc kernel 13 2 [] ≡ (system_error 12, block 13)
unfolding numa_alloc map_result bind bind_result node_mask
leak_run = refl
