-- ===== src/Queue.antt =====
-- include/boost/job/detail/queue.hpp: the queue of work items of one worker thread, a singly
-- linked list with a pointer to its last link. Each operation runs under the queue's mutex, so it
-- is one transition; a wait on `not_empty_cond_` gives the mutex up and ends the transition.
pub mod Branches
pub mod Pop
pub mod Push
pub mod Shape
mod Tests
use boost_job.Common.{
  Bool, true, false, not, ◌&&◌, Option, none, some, List, ◌∷◌, ◌==◌, if◌then◌else◌, ◌>>=◌,
}
use boost_job.Work.{Ptr, null, Heap, write, load, SmartPtr}

pub data QueueStatus : Type 0 where
  opened closed : QueueStatus

-- The values of `fibers::channel_op_status` that the queue returns.
pub data QueueOpStatus : Type 0 where
  success empty closed timeout : QueueOpStatus

pub data CvStatus : Type 0 where
  no_timeout timeout : CvStatus

-- What `tail_` points to: the member `head_`, or the `nxt` of a work item.
pub data Slot : Type 0 where
  head_slot : Slot
  nxt_slot : Ptr → Slot

pub data Signal : Type 0 where
  notify_one notify_all : Signal

pub record Queue : Type 0 where
  pub state : QueueStatus
  pub head : Ptr
  pub tail : Slot

-- The heap, the queue, and the signals sent to `not_empty_cond_`, the latest first.
pub record Mem : Type 0 where
  pub heap : Heap
  pub queue : Queue
  pub open queue use *
  pub signals : List Signal

pub data Outcome (A : Type 0) : Type 0 where
  returned : A → Mem → Outcome A
  waiting : Mem → Outcome A  -- blocked in `not_empty_cond_`, the mutex released
  logic_error : Mem → Outcome A
  undefined : Outcome A

unfoldable pub init : Queue
init = record { state = opened; head = null; tail = head_slot }

status_is_closed : QueueStatus → Bool
status_is_closed opened = false
status_is_closed closed = true

unfoldable pub is_closed_ : Mem → Bool
unfolding status_is_closed
is_closed_ m = status_is_closed m.state

unfoldable pub close_ : Mem → Mem
close_ m = record m {
  queue = record m.queue { state = QueueStatus.closed };
  signals = notify_all ∷ m.signals;
}

unfoldable pub is_empty_ : Mem → Bool
is_empty_ m = m.head == null

-- The `ptr_t` that a slot holds.
read_slot : Slot → Mem → Option Ptr
read_slot head_slot m = some m.head
read_slot (nxt_slot p) m = do w ← load m.heap p; some w.nxt

write_slot : Slot → Ptr → Mem → Option Mem
write_slot head_slot p m = some (record m { queue = record m.queue { head = p } })
write_slot (nxt_slot a) p m = do
  w ← load m.heap a
  some (record m { heap = write m.heap a (some (record w { nxt = p })) })

unfoldable pub on_heap : (Heap → Option Heap) → Mem → Option Mem
on_heap f m = do h ← f m.heap; some (record m { heap = h })

-- Copy-assignment of a `ptr_t`: the new object gains a reference, and the old one loses it last.
assign : SmartPtr → Slot → Ptr → Mem → Option Mem
unfolding read_slot write_slot on_heap
assign s slot p m = do
  old ← read_slot slot m
  m₁ ← on_heap (s.copy p) m
  m₂ ← write_slot slot p m₁
  on_heap (s.drop old) m₂

unfoldable pub push_tail_ : SmartPtr → Ptr → Mem → Option Mem
unfolding assign
push_tail_ s new_work m = do
  m₁ ← assign s m.tail new_work m
  some (record m₁ { queue = record m₁.queue { tail = nxt_slot new_work } })

-- `if ( ! head_) tail_ = & head_;`
retarget : Mem → Mem
unfolding is_empty_
retarget m = if is_empty_ m then record m { queue = record m.queue { tail = head_slot } } else m

-- The local `old_head` is a reference of its own, and is what the caller receives.
unfoldable pub pop_head_ : SmartPtr → Mem → Option (Ptr × Mem)
unfolding assign retarget
pop_head_ s m = do
  let old_head = m.head
  m₁ ← on_heap (s.copy old_head) m
  next ← read_slot (nxt_slot old_head) m₁
  m₂ ← assign s head_slot next m₁
  let m₃ = retarget m₂
  last ← read_slot (nxt_slot old_head) m₃
  m₄ ← write_slot (nxt_slot old_head) null m₃
  m₅ ← on_heap (s.drop last) m₄
  some (old_head, m₅)

-- An undefined step has no result.
unfoldable pub or_undefined : {A : Type 0} → Option (A × Mem) → Outcome A
or_undefined none = undefined
or_undefined (some (a, m)) = returned a m

-- Neither the assignment nor the notification throws, so the handler that closes is not reached.
unfoldable pub push_and_notify_ : SmartPtr → Ptr → Mem → Outcome QueueOpStatus
unfolding push_tail_ or_undefined
push_and_notify_ s new_work m =
    or_undefined do
      m₁ ← push_tail_ s new_work m
      some (success, record m₁ { signals = notify_one ∷ m₁.signals })

unfoldable pub push_ : SmartPtr → Ptr → Mem → Outcome QueueOpStatus
unfolding push_and_notify_ is_closed_
push_ s new_work m =
    if is_closed_ m then returned QueueOpStatus.closed m else push_and_notify_ s new_work m

unfoldable pub close : Mem → Mem
unfolding close_
close m = close_ m

-- `closed()` and `empty()`.
unfoldable pub is_closed : Mem → Bool
unfolding is_closed_
is_closed m = is_closed_ m

unfoldable pub is_empty : Mem → Bool
unfolding is_empty_
is_empty m = is_empty_ m

unfoldable pub push : SmartPtr → Ptr → Mem → Outcome QueueOpStatus
unfolding push_
push s va m = push_ s va m

-- `va = pop_head_()`: the caller's pointer is overwritten, and what it pointed to is dropped.
take_head : SmartPtr → Ptr → Mem → Outcome (QueueOpStatus × Ptr)
unfolding pop_head_ or_undefined
take_head s va m =
    or_undefined do (p, m₁) ← pop_head_ s m; m₂ ← on_heap (s.drop va) m₁; some ((success, p), m₂)

-- From the test of the loop on. A fiber that is woken starts here again.
unfoldable pub pop : SmartPtr → Ptr → Mem → Outcome (QueueOpStatus × Ptr)
unfolding is_closed_ is_empty_ take_head
pop s va m =
    if not (is_closed_ m) && is_empty_ m
    then waiting m
    else if is_closed_ m && is_empty_ m
    then returned (QueueOpStatus.closed, va) m
    else take_head s va m

unfoldable pub value_pop : SmartPtr → Mem → Outcome Ptr
unfolding is_closed_ is_empty_ pop_head_ or_undefined
value_pop s m =
    if not (is_closed_ m) && is_empty_ m
    then waiting m
    else if is_closed_ m && is_empty_ m
    then logic_error m
    else or_undefined (pop_head_ s m)

unfoldable pub try_pop : SmartPtr → Ptr → Mem → Outcome (QueueOpStatus × Ptr)
unfolding is_closed_ is_empty_ take_head
try_pop s va m =
    if is_closed_ m && is_empty_ m
    then returned (QueueOpStatus.closed, va) m
    else if is_empty_ m
    then returned (QueueOpStatus.empty, va) m
    else take_head s va m

-- The first pass of `pop_wait_until`, and what follows a `wait_until`.
unfoldable pub pop_wait_until : SmartPtr → Ptr → Mem → Outcome (QueueOpStatus × Ptr)
unfolding is_closed_ is_empty_ take_head
pop_wait_until s va m =
    if not (is_closed_ m) && is_empty_ m
    then waiting m
    else if is_closed_ m && is_empty_ m
    then returned (QueueOpStatus.closed, va) m
    else take_head s va m

unfoldable pub pop_wait_resume : SmartPtr → CvStatus → Ptr → Mem → Outcome (QueueOpStatus × Ptr)
unfolding pop_wait_until
pop_wait_resume s CvStatus.timeout va m = returned (QueueOpStatus.timeout, va) m
pop_wait_resume s no_timeout va m = pop_wait_until s va m
