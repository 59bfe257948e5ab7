-- ===== src/Work.antt =====
-- include/boost/job/detail/work.hpp: reference-counted work items on an explicit heap.
-- `wrapped_work` is the only subclass, so a `Work` stands for one; `fn` names its callable.
pub mod Refs
pub mod Sample
use boost_job.Common.{
  ℕ, ◌+◌, ◌-◌, ◌%◌, ◌^◌, ◌<◌, ◌≡◌, ◌≢◌, ◌⊎◌, Option, none, some, ◌==◌, if◌then◌else◌, ◌>>=◌,
}

abbrev pub Ptr : Type 0
Ptr = ℕ

abbrev pub null : Ptr
null = 0

-- `fn` stands for `alloc_` and `fn_` of `wrapped_work`.
pub record Work : Type 0 where
  pub use_count : ℕ
  pub nxt : Ptr
  pub fn : ℕ

abbrev pub work : ℕ → Ptr → ℕ → Work
work n p f = record { use_count = n; nxt = p; fn = f }

abbrev pub Heap : Type 0
Heap = Ptr → Option Work

unfoldable pub write : Heap → Ptr → Option Work → Heap
write h p c a = if a == p then c else h a

-- `*p`: undefined at null and at an address that holds no object.
unfoldable pub load : Heap → Ptr → Option Work
load h p = if p == null then none else h p

-- `++j->use_count_` on a `std::size_t`.
unfoldable pub intrusive_ptr_add_ref : Ptr → Heap → Option Heap
intrusive_ptr_add_ref j h = do
  w ← load h j
  some (write h j (some (record w { use_count = (w.use_count + 1) % 2 ^ 64 })))

-- The destructor drops `nxt`, then the storage is given back. `drop` is the destructor of `ptr_t`.
unfoldable pub deallocate : (Ptr → Heap → Option Heap) → Ptr → Heap → Option Heap
deallocate drop j h = do w ← load h j; g ← drop w.nxt h; some (write g j none)

unfoldable pub intrusive_ptr_release : (Ptr → Heap → Option Heap) → Ptr → Heap → Option Heap
intrusive_ptr_release drop j h = do
  w ← load h j
  let n = (w.use_count + 2 ^ 64 - 1) % 2 ^ 64
  let g = write h j (some (record w { use_count = n }))
  if n == 0 then deallocate drop j g else some g

-- `boost::intrusive_ptr< work >`: what a copy and a destruction of one do to the heap.
pub record SmartPtr : Type 0 where
  pub copy : Ptr → Heap → Option Heap
  pub drop : Ptr → Heap → Option Heap

-- Its documented behaviour: null is left alone, and an object is handed to the two hooks above.
-- The last law is asked only of a release that does not go on to the next item.
pub record IsSmartPtr (s : SmartPtr) : Type 0 where
  pub copy_null : (h : Heap) → s.copy null h ≡ some h
  pub copy_object : (p : Ptr) (h : Heap) → p ≢ null → s.copy p h ≡ intrusive_ptr_add_ref p h
  pub drop_null : (h : Heap) → s.drop null h ≡ some h
  pub drop_object :
      (p : Ptr) (h : Heap) (w : Work)
      → p ≢ null
      → h p ≡ some w
      → ((1 < w.use_count) × (w.use_count < 2 ^ 64)) ⊎ (w.nxt ≡ null)
      → s.drop p h ≡ intrusive_ptr_release s.drop p h

-- `create_work_` constructs at the address that the allocator returned; `ptr_t` takes a reference.
unfoldable pub create_work : SmartPtr → Ptr → ℕ → Heap → Option Heap
create_work s pw fn h = s.copy pw (write h pw (some (work 0 null fn)))
