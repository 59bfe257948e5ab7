-- ===== src/StaticPool/Executed.antt =====
-- include/boost/job/static_pool.hpp: what the fibers do with the jobs that they take from the queue.
use boost_job.Common.{
  ℕ, ◌+◌, ◌<◌, ◌≡◌, refl, sym, ap, ◌∙◌, Option, none, some, List, [], ◌∷◌, ◌++◌, get_elem?, set,
  total, total-set, total-append, total-map, total-replicate, heavy_member, get_elem?-lt-length,
  dec_lt, ◌==◌, if◌then◌else◌, arith,
}
use boost_job.Queue.{QueueStatus, opened}
use boost_job.Rendezvous
use boost_job.Rendezvous.{Rendezvous}
use boost_job.StaticPool.{
  Pc, top, popping, blocked, running, done, Master, waits, closes, joins, returned, Pool, launch,
  fiber_step, move_fiber, wake, close_pool, receive, master_step, move_master, wake_one, accept,
  submit_job, request_shutdown, Wakes, Step, fiber_moves, woken, submitted, notified, master_moves,
  Reach, launched, next,
}
use boost_job.StaticPool.Shutdown.{Reach-in_order, returned-done}

-- The job that a fiber executes in its step from here.
abbrev pub work : Pc → List ℕ
work (running f) = f ∷ []
work _ = []

abbrev pub ran : {p q : Pool} → Step p q → List ℕ
ran (fiber_moves i pc e) = work pc
ran (woken i e) = []
ran (submitted f w h) = []
ran notified = []
ran master_moves = []

-- The jobs that were executed along a run, in order.
unfoldable pub executed : {n : ℕ} {p : Pool} → Reach n p → List ℕ
executed launched = []
executed (next r s) = executed r ++ ran s

abbrev pub same : ℕ → ℕ → ℕ
same f x = if x == f then 1 else 0

-- How often a job is in a list.
abbrev pub times : ℕ → List ℕ → ℕ
times f = total (same f)

-- Whether a fiber has a job in its hand.
abbrev pub holds : ℕ → Pc → ℕ
holds f (running g) = same f g
holds f _ = 0

module _ (f : ℕ) where
  fiber_step-times :
      (st : QueueStatus) (js : List ℕ) (pc : Pc)
      → holds f (fiber_step st js pc).pc + times f (work pc)
        ≡ holds f pc + times f (fiber_step st js pc).took
  unfolding fiber_step total
  fiber_step-times opened js top = refl
  fiber_step-times QueueStatus.closed js top = refl
  fiber_step-times opened (g ∷ js) popping = omega arith
  fiber_step-times QueueStatus.closed (g ∷ js) popping = omega arith
  fiber_step-times opened [] popping = refl
  fiber_step-times QueueStatus.closed [] popping = refl
  fiber_step-times opened js (running g) = omega arith
  fiber_step-times QueueStatus.closed js (running g) = omega arith
  fiber_step-times opened js blocked = refl
  fiber_step-times QueueStatus.closed js blocked = refl
  fiber_step-times opened js done = refl
  fiber_step-times QueueStatus.closed js done = refl

  wake-holds : (pc : Pc) → holds f (wake pc) ≡ holds f pc
  wake-holds top = refl
  wake-holds popping = refl
  wake-holds blocked = refl
  wake-holds (running g) = refl
  wake-holds done = refl

  -- A step keeps the difference between the jobs taken and the jobs in somebody's hand, but for the
  -- job that it executes.
  Accounts : Pool → List ℕ → Pool → Type 0
  Accounts p js q =
      times f q.taken + total (holds f) p.fibers
      ≡ times f p.taken + times f js + total (holds f) q.fibers

  module _ (p : Pool) where
    move_fiber-Accounts :
        (i : ℕ) (pc : Pc)
        → get_elem? p.fibers i ≡ some pc
        → Accounts p (work pc) (move_fiber p i pc)
    unfolding Accounts move_fiber
    move_fiber-Accounts i pc e = omega (
      arith,
      fiber_step-times p.state p.jobs pc,
      total-append (same f) p.taken (fiber_step p.state p.jobs pc).took,
      total-set (holds f) p.fibers i pc (fiber_step p.state p.jobs pc).pc e,
    )

    woken-Accounts :
        (i : ℕ)
        → get_elem? p.fibers i ≡ some blocked
        → Accounts p [] (record p { fibers = set p.fibers i popping })
    unfolding Accounts total
    woken-Accounts i e = omega (arith, total-set (holds f) p.fibers i blocked popping e)

    accept-Accounts :
        (st : QueueStatus) (g : ℕ) (w : Option ℕ)
        → Wakes p.fibers w
        → Accounts p [] (accept st g w p)
    unfolding Accounts accept wake_one total
    accept-Accounts QueueStatus.closed g w h = omega arith
    accept-Accounts opened g none h = omega arith
    accept-Accounts opened g (some i) h =
        omega (arith, total-set (holds f) p.fibers i blocked popping h)

    receive-Accounts : (o : Option Rendezvous) → Accounts p [] (receive p o)
    unfolding Accounts receive total
    receive-Accounts none = omega arith
    receive-Accounts (some r) = omega arith

    master_step-Accounts : (m : Master) → Accounts p [] (master_step m p)
    unfolding Accounts master_step close_pool total
    master_step-Accounts waits = receive-Accounts (Rendezvous.wait p.rdzv)
    master_step-Accounts closes = omega (arith, total-map (holds f) wake wake-holds p.fibers)
    master_step-Accounts (joins k) = omega arith
    master_step-Accounts returned = omega arith

    Step-Accounts : {q : Pool} → (s : Step p q) → Accounts p (ran s) q
    unfolding Accounts submit_job request_shutdown move_master total
    Step-Accounts (fiber_moves i pc e) = move_fiber-Accounts i pc e
    Step-Accounts (woken i e) = woken-Accounts i e
    Step-Accounts (submitted g w h) = accept-Accounts p.state g w h
    Step-Accounts notified = omega arith
    Step-Accounts master_moves = master_step-Accounts p.master

  Reach-times :
      {n : ℕ} {p : Pool}
      → (r : Reach n p) → times f p.taken ≡ times f (executed r) + total (holds f) p.fibers
  unfolding executed launch total Accounts
  Reach-times {n} launched = omega (arith, total-replicate (holds f) n top)
  Reach-times (next {p} r s) =
      omega (arith, Reach-times r, Step-Accounts p s, total-append (same f) (executed r) (ran s))

-- In any state that a pool of at least one fiber reaches, the accepted jobs are those that fibers
-- have taken, in the order of acceptance, followed by those that wait; and any job has been taken
-- as often as it was executed by the fibers along the run that led here or is in a fiber's hand. So
-- none is lost, executed twice or overtaken.
pub Reach-executed :
    {n : ℕ} {p : Pool}
    → 0 < n
    → (r : Reach n p) (f : ℕ)
    → (p.offered ≡ p.taken ++ p.jobs)
      × (times f p.taken ≡ times f (executed r) + total (holds f) p.fibers)
Reach-executed positive r f = (Reach-in_order positive r, Reach-times f r)

-- If `operator()` of a pool of at least one fiber has returned, any job was accepted as often as it
-- was executed by the fibers along the run, or is left in the closed queue.
pub returned-executed :
    {n : ℕ} {p : Pool}
    → 0 < n
    → (r : Reach n p) (f : ℕ) → p.master ≡ returned
    → times f p.offered ≡ times f (executed r) + times f p.jobs
returned-executed {n} {p} positive r f e = omega (
  arith,
  ap (times f) (Reach-in_order positive r),
  total-append (same f) p.taken p.jobs,
  Reach-times f r,
  empty_hands (dec_lt 0 (total (holds f) p.fibers)),
)
  where
    of : Option Pc → ℕ
    of none = 0
    of (some pc) = holds f pc

    empty_hands : Dec (0 < total (holds f) p.fibers) → total (holds f) p.fibers ≡ 0
    empty_hands (no h) = omega arith
    empty_hands (yes h) =
        let (i, pc, at, heavy) = heavy_member (holds f) p.fibers h in
        let (c, ended) = returned-done positive r e i (get_elem?-lt-length p.fibers i pc at) in
        absurd (omega (arith, heavy, ap of (sym at ∙ ended)))
