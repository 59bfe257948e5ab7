-- ===== src/Worker.antt =====
-- The life of a job at one worker thread: `submit_preempt` and `submit_coop` of
-- include/boost/job/detail/worker_thread.hpp put it into the queue, and the loop body that both
-- fiber pools run takes it out, executes it and drops it. Between these, operations of other
-- fibers and threads may come, so each is an operation of its own.
mod Fifo
mod Ledger
mod Simulation
pub mod Refinement
mod Submit
mod Tests
use boost_job.Common.{
  ℕ, Bool, true, false, Option, none, some, List, [], ◌∷◌, ◌++◌, ◌==◌, if◌then◌else◌, ◌>>=◌,
}
use boost_job.Work.{Ptr, null, Heap, load, SmartPtr, create_work}
use boost_job.Queue
use boost_job.Queue.{
  QueueOpStatus, success, Mem, Outcome, returned, waiting, logic_error, undefined, or_undefined,
  on_heap,
}
use boost_job.Queue.Shape.{Cells, has}

-- The temporary `ptr_t` of a call `queue_.push( create_work( ...) )` ends with the call.
drop_temporary : SmartPtr → Ptr → Outcome QueueOpStatus → Outcome QueueOpStatus
unfolding or_undefined on_heap
drop_temporary s pw (returned st m) = or_undefined do m' ← on_heap (s.drop pw) m; some (st, m')
drop_temporary s pw o = o

push_created : SmartPtr → Ptr → Mem → Option Heap → Outcome QueueOpStatus
unfolding drop_temporary
push_created s pw m none = undefined
push_created s pw m (some h) = drop_temporary s pw (Queue.push s pw (record m { heap = h }))

-- `pw` is what the allocator returned. The source drops the status that `push` returns; here it is
-- kept for the statements. `fn` holds the promise of the future that the caller gets.
unfoldable pub submit_preempt : SmartPtr → Ptr → ℕ → Mem → Outcome QueueOpStatus
unfolding push_created
submit_preempt s pw fn m = push_created s pw m (create_work s pw fn m.heap)

-- The same but for the kind of future.
unfoldable pub submit_coop : SmartPtr → Ptr → ℕ → Mem → Outcome QueueOpStatus
unfolding push_created
submit_coop s pw fn m = push_created s pw m (create_work s pw fn m.heap)

-- A worker thread with the work items that its fibers have in their local `w`.
pub record Thread : Type 0 where
  pub mem : Mem
  pub open mem use *
  pub running : Cells

pub data Op : Type 0 where
  submits : Ptr → ℕ → Op
  takes : Op
  finishes : Ptr → Op
  closes : Op

pub data Reply : Type 0 where
  accepted refused waits gone quiet : Reply
  starts : ℕ → Reply

abbrev pub remove : Ptr → Cells → Cells
remove p [] = []
remove p ((a, f) ∷ xs) = if p == a then remove p xs else (a, f) ∷ remove p xs

submitted : Thread → Outcome QueueOpStatus → Option (Reply × Thread)
submitted t (returned success m) = some (accepted, record t { mem = m })
submitted t (returned _ m) = some (refused, record t { mem = m })
submitted t _ = none

-- `pop( w)` into a fresh `w`, and the virtual call that runs the callable.
taken : Thread → Outcome (QueueOpStatus × Ptr) → Option (Reply × Thread)
taken t (returned (success, w) m) = do
  x ← load m.heap w
  some (starts x.fn, record t { mem = m; running = (w, x.fn) ∷ t.running })
taken t (returned (_, w) m) = some (gone, record t { mem = m })
taken t (waiting m) = some (waits, record t { mem = m })
taken t _ = none

-- The end of the scope of `w`.
finished : SmartPtr → Ptr → Thread → Option (Reply × Thread)
unfolding on_heap
finished s w t = do
  m ← on_heap (s.drop w) t.mem
  some (quiet, record t { mem = m; running = remove w t.running })

-- A fiber finishes only an item that it holds.
unfoldable pub step : SmartPtr → Op → Thread → Option (Reply × Thread)
unfolding submitted taken finished
step s (submits p f) t = submitted t (submit_preempt s p f t.mem)
step s takes t = taken t (Queue.pop s null t.mem)
step s (finishes p) t = if has p t.running then finished s p t else some (quiet, t)
step s closes t = some (quiet, record t { mem = Queue.close t.mem })

unfoldable pub run : SmartPtr → List Op → Thread → Option (List Reply × Thread)
run s [] t = some ([], t)
run s (o ∷ os) t = do (r, t') ← step s o t; (rs, u) ← run s os t'; some (r ∷ rs, u)

unfoldable pub start : Thread
unfolding Queue.init
start = record { mem = record { heap = λ _. none; queue = Queue.init; signals = [] }; running = [] }
