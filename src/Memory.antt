-- ===== src/Memory.antt =====
-- include/boost/job/memory.hpp and include/boost/job/numa_fixedsize_stack.hpp: memory on a NUMA
-- node for objects and for the stacks of fibers. The functions `numa_alloc` and `numa_free` differ
-- from system to system; they are an interface, which the modules for the systems fill. The
-- functions of the system itself are parameters on a state that they keep.
mod Mapped
mod Linux
mod Hpux
mod Malloc
mod Windows
mod Clients
mod Allocators
mod Tests
use boost_job.Common.{
  Option, none, some, leb, ◌&&◌, ◌||◌, if◌then◌else◌, false, ℕ, ◌+◌, ◌-◌, ◌*◌, ◌/◌, ◌%◌, ◌^◌, ◌<◌,
  ◌≡◌, Bool, not, List, ◌∷◌, ◌==◌,
}

-- A value, the error of a `std::system_error`, or what has no meaning in C++.
pub data Outcome (A : Type 0) : Type 0 where
  returned : A → Outcome A
  system_error : ℕ → Outcome A
  undefined : Outcome A

pub record NumaMemory (State : Type 0) : Type 0 where
  pub numa_alloc : ℕ → ℕ → State → Outcome ℕ × State
  pub numa_free : ℕ → ℕ → State → State

-- `mapped` lists the blocks in use, the latest first.
pub record IsNumaMemory {State : Type 0} (mapped : State → List (ℕ × ℕ)) (mem : NumaMemory State)
    : Type 0 where
  pub gives :
      (size node a : ℕ) (s s' : State)
      → mem.numa_alloc size node s ≡ (returned a, s')
      → (mapped s' ≡ (a, size) ∷ mapped s) × (a < 2 ^ 64)
  pub takes :
      (size a : ℕ) (s : State) (blocks : List (ℕ × ℕ))
      → mapped s ≡ (a, size) ∷ blocks
      → mapped (mem.numa_free a size s) ≡ blocks

-- `context::stack_context`.
pub record StackContext : Type 0 where
  pub size : ℕ
  pub sp : ℕ

-- `stack_traits` of boost, and the constructor of `basic_numa_fixedsize_stack`; `none` is a failed
-- assertion.
pub record StackTraits : Type 0 where
  pub minimum_size : ℕ
  pub maximum_size : ℕ
  pub is_unbounded : Bool

pub record NumaFixedsizeStack : Type 0 where
  pub node_id : ℕ
  pub size : ℕ

unfoldable pub numa_fixedsize_stack : StackTraits → ℕ → ℕ → Option NumaFixedsizeStack
numa_fixedsize_stack traits node_id size =
    if leb traits.minimum_size size && (traits.is_unbounded || leb size traits.maximum_size)
    then some (record { node_id = node_id; size = size })
    else none

module _ {State : Type 0} (mem : NumaMemory State) where
  unfoldable pub stack_of : ℕ → Outcome ℕ × State → Outcome StackContext × State
  stack_of size (returned vp, s) = (returned (record { size = size; sp = (vp + size) % 2 ^ 64 }), s)
  stack_of size (system_error e, s) = (system_error e, s)
  stack_of size (undefined, s) = (undefined, s)

  -- `basic_numa_fixedsize_stack::allocate`. What `numa_alloc` returns is never null.
  unfoldable pub allocate_stack : ℕ → ℕ → State → Outcome StackContext × State
  unfolding stack_of
  allocate_stack size node_id s = stack_of size (mem.numa_alloc size node_id s)

  unfoldable pub deallocate_stack : StackContext → State → State
  deallocate_stack sctx s = mem.numa_free ((sctx.sp + 2 ^ 64 - sctx.size) % 2 ^ 64) sctx.size s

  -- `numa_allocator` for objects of `size_of` bytes.
  unfoldable pub allocate : ℕ → ℕ → ℕ → State → Outcome ℕ × State
  allocate size_of node_id num s = mem.numa_alloc (num * size_of % 2 ^ 64) node_id s

  unfoldable pub deallocate_objects : ℕ → ℕ → ℕ → State → State
  deallocate_objects size_of p num s = mem.numa_free p (num * size_of % 2 ^ 64) s

unfoldable pub max_size : ℕ → ℕ
max_size size_of = (2 ^ 64 - 1) / size_of

-- `numa_allocator`: its constructors, from a node and from an allocator for the same or another type,
-- and its comparisons.
pub record NumaAllocator : Type 0 where
  pub node_id : ℕ

unfoldable pub numa_allocator : ℕ → NumaAllocator
numa_allocator node_id = record { node_id = node_id % 2 ^ 32 }

unfoldable pub copied : NumaAllocator → NumaAllocator
copied other = record { node_id = other.node_id }

unfoldable pub is_equal : NumaAllocator → NumaAllocator → Bool
is_equal l r = l.node_id == r.node_id

unfoldable pub differs : NumaAllocator → NumaAllocator → Bool
differs l r = not (l.node_id == r.node_id)
