-- ===== src/Queue/Tests.antt =====
-- The queue at concrete memories: the theorems at inputs that meet their hypotheses.
use boost_job.Common.{ℕ, ◌≡◌, refl, none, some, [], ◌∷◌, arith}
use boost_job.Work.{null, work, Heap, write}
use boost_job.Work.Sample.{plain, plain-IsSmartPtr}
use boost_job.Queue.{
  QueueStatus, opened, QueueOpStatus, success, CvStatus, notify_one, head_slot, nxt_slot, Mem,
  returned, push, pop, value_pop, try_pop, pop_wait_resume,
}
use boost_job.Queue.Shape.{Cells, IsQueue}
use boost_job.Queue.Push.{Pushed}
use boost_job.Queue.Branches.{push-Pushes, Pops, TryPops, ValuePops, takes_all_branches}

abbrev no_refs : ℕ → ℕ
no_refs _ = 0

-- Two jobs in the queue, and at address 3 an item that a caller has just created.
abbrev heap : Heap
heap =
    write (write (write (λ _. none) 1 (some (work 1 2 10))) 2 (some (work 1 null 20))) 3
      (some (work 0 null 30))

abbrev two : Cells
two = (1, 10) ∷ (2, 20) ∷ []

abbrev two_jobs : QueueStatus → Mem
two_jobs st = record {
  heap = heap;
  queue = record { state = st; head = 1; tail = nxt_slot 2 };
  signals = [];
}

abbrev no_jobs : QueueStatus → Mem
no_jobs st = record {
  heap = heap;
  queue = record { state = st; head = null; tail = head_slot };
  signals = [];
}

two_jobs-IsQueue : (st : QueueStatus) → IsQueue no_refs (two_jobs st) two
unfolding write
two_jobs-IsQueue st = record {
  at_head = refl;
  at_tail = refl;
  linked = (omega arith, refl, refl, omega arith, (omega arith, refl, refl, omega arith, tt));
}

no_jobs-IsQueue : (st : QueueStatus) → IsQueue no_refs (no_jobs st) []
no_jobs-IsQueue st = record { at_head = refl; at_tail = refl; linked = tt }

push-Pushes_example :
    (m' : Mem) × (push plain 3 (two_jobs opened)
      ≡ returned success (record m' { signals = notify_one ∷ [] }))
    × Pushed no_refs (two_jobs opened) two 3 30 m'
unfolding write
push-Pushes_example =
    push-Pushes plain-IsSmartPtr no_refs (two_jobs opened) two 3 30 (two_jobs-IsQueue opened)
      (omega arith) refl refl (omega arith)

-- A closed queue still hands out what it holds.
takes_all_branches_example :
    Pops plain-IsSmartPtr no_refs
      (two_jobs QueueStatus.closed)
      QueueStatus.closed
      two
      (pop plain null (two_jobs QueueStatus.closed))
    × TryPops plain-IsSmartPtr no_refs
        (two_jobs QueueStatus.closed)
        QueueStatus.closed
        two
        (try_pop plain null (two_jobs QueueStatus.closed))
    × ValuePops plain-IsSmartPtr no_refs
        (two_jobs QueueStatus.closed)
        QueueStatus.closed
        two
        (value_pop plain (two_jobs QueueStatus.closed))
    × Pops plain-IsSmartPtr no_refs
        (two_jobs QueueStatus.closed)
        QueueStatus.closed
        two
        (pop_wait_resume plain CvStatus.no_timeout null (two_jobs QueueStatus.closed))
    × (pop_wait_resume plain CvStatus.timeout null (two_jobs QueueStatus.closed)
        ≡ returned (QueueOpStatus.timeout, null) (two_jobs QueueStatus.closed))
takes_all_branches_example =
    takes_all_branches plain-IsSmartPtr no_refs (two_jobs QueueStatus.closed) two
      (two_jobs-IsQueue QueueStatus.closed)
