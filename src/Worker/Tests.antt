-- ===== src/Worker/Tests.antt =====
-- A worker thread from its start: the theorems at inputs that meet their hypotheses.
use boost_job.Common.{◌≡◌, refl, Option, none, some, List, [], ◌∷◌, arith, ◌>>=◌}
use boost_job.Work.{
  null, load, intrusive_ptr_add_ref, intrusive_ptr_release, deallocate, create_work, write,
}
use boost_job.Work.Sample.{plain, plain-IsSmartPtr}
use boost_job.Queue.{
  QueueStatus, opened, success, head_slot, Mem, returned, close, pop_head_, push, pop,
}
use boost_job.Worker.{
  Thread, Op, submits, takes, finishes, closes, Reply, submit_preempt, step, run, start,
}
use boost_job.Worker.Submit.{Submitted, submit-Submits}
use boost_job.Worker.Refinement.{AllFresh, Refines, start-Refines, start-no_leak}

abbrev ops : List Op
ops =
    submits 1 10
    ∷ submits 2 20
    ∷ takes
    ∷ closes
    ∷ submits 3 30
    ∷ finishes 1
    ∷ takes
    ∷ finishes 2
    ∷ takes
    ∷ []

-- What a run from the start replies.
replies_of : List Op → Option (List Reply)
unfolding run step start plain load write intrusive_ptr_add_ref intrusive_ptr_release deallocate
    create_work submit_preempt close push pop pop_head_
replies_of os = do (rs, _) ← run plain os start; some rs

run_replies :
    replies_of ops
    ≡ some (
        Reply.accepted
        ∷ Reply.accepted
        ∷ Reply.starts 10
        ∷ Reply.quiet
        ∷ Reply.refused
        ∷ Reply.quiet
        ∷ Reply.starts 20
        ∷ Reply.quiet
        ∷ Reply.gone
        ∷ [])
unfolding replies_of
run_replies = refl

ops-AllFresh : AllFresh plain ops start
unfolding replies_of
ops-AllFresh = (
  (omega arith, refl),
  ((omega arith, refl), (tt, (tt, ((omega arith, refl), (tt, (tt, (tt, (tt, tt)))))))),
)

start-Refines_example : Refines plain-IsSmartPtr ops start (record { state = opened; jobs = [] })
start-Refines_example = start-Refines plain-IsSmartPtr ops ops-AllFresh

last_thread : List Op → Thread
unfolding replies_of
last_thread os = elim (run plain os start) [ none ↦ start | some (_, t) ↦ t ]

start-no_leak_example : (last_thread ops).heap 1 ≡ none
unfolding last_thread
start-no_leak_example = start-no_leak plain-IsSmartPtr ops _ _ ops-AllFresh refl refl refl 1

abbrev idle : QueueStatus → Mem
idle st = record {
  heap = λ _. none;
  queue = record { state = st; head = null; tail = head_slot };
  signals = [];
}

submit-Submits_example :
    (m' : Mem) × (submit_preempt plain 5 50 (idle opened) ≡ returned success m')
    × Submitted plain-IsSmartPtr (idle opened) 5 50 (omega arith) [] m'
submit-Submits_example =
    submit-Submits plain-IsSmartPtr (idle opened) 5 50 (omega arith) []
      (record { at_head = refl; at_tail = refl; linked = tt }) refl
