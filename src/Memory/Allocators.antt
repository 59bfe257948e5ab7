-- ===== src/Memory/Allocators.antt =====
-- Which allocators compare equal, and which stacks can be made.
use boost_job.Common.{
  Bool, ap, none, some, leb, ◌≤◌, ◌&&◌, ◌||◌, if◌then◌else◌, ℕ, ◌^◌, ◌<◌, ◌≡◌, ◌↔◌, true, arith,
}
use boost_job.Memory.{StackTraits, numa_fixedsize_stack, numa_allocator, copied, is_equal}

-- Allocators for nodes below 2 ^ 32 and any copies of them are equal if their nodes are.
pub is_equal-copied :
    (m n : ℕ)
    → m < 2 ^ 32
    → n < 2 ^ 32
    → (is_equal (copied (numa_allocator m)) (numa_allocator n) ≡ true) ↔ (m ≡ n)
unfolding is_equal copied numa_allocator
is_equal-copied m n hm hn = (λ e. ground arith, λ e. ground arith)

-- The constructor makes every stack of a size within the bounds of its traits.
pub numa_fixedsize_stack_lem :
    (traits : StackTraits) (node_id size : ℕ)
    → traits.minimum_size ≤ size
    → size ≤ traits.maximum_size
    → numa_fixedsize_stack traits node_id size ≡ some (record { node_id = node_id; size = size })
unfolding numa_fixedsize_stack
numa_fixedsize_stack_lem traits node_id size least most =
    ap (λ b. if b then some (record { node_id = node_id; size = size }) else none)
      (within traits.minimum_size traits.maximum_size traits.is_unbounded least most)
  where
    within : (l h : ℕ) (b : Bool) → l ≤ size → size ≤ h → (leb l size && (b || leb size h)) ≡ true
    within l h b least most = ground arith
