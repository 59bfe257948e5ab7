-- ===== src/DynamicPool/Executed.antt =====
-- include/boost/job/dynamic_pool.hpp: what the fibers do with the jobs that they take from the queue.
use boost_job.Common.{
  ℕ, suc, ◌+◌, ◌<◌, ◌≡◌, refl, ap, Bool, true, false, not, ◌&&◌, ◌||◌, Option, none, some, List, [],
  ◌∷◌, ◌++◌, map, get_elem?, get_elem?-map, set, total, total-set, total-append, total-map,
  total-replicate, total-insert_at, ltb, if◌then◌else◌, arith,
}
use boost_job.Queue.{QueueStatus, opened}
use boost_job.Rendezvous
use boost_job.Rendezvous.{Rendezvous}
use boost_job.StaticPool.{Master, waits, closes, joins}
use boost_job.StaticPool.Executed.{same, times}
use boost_job.DynamicPool.{
  Pc, created, top, popping, blocked, holding, running, sweeping, done, WorkerFiber, Pool, is_nil,
  worker_fiber, detach, worker_fn_, take_turn, insert_fiber, detach_all, end_fiber, launch,
  move_fiber, wake, close_pool, join_fiber, is_done, receive, master_step, move_master, wake_one,
  accept, submit_job, request_shutdown, Wakes, Step, fiber_moves, woken, submitted, notified,
  master_moves, Reach, launched, next,
}
use boost_job.DynamicPool.Safety.{Reach-fifo}

-- The job that a fiber executes in its step from here.
abbrev pub work : Pc → List ℕ
work (running f) = f ∷ []
work _ = []

module _ {min max : ℕ} where
  abbrev pub ran : {p q : Pool} → Step min max p q → List ℕ
  ran (fiber_moves ready at i f here there) = work f.pc
  ran (woken i f here e) = []
  ran (submitted f w h) = []
  ran notified = []
  ran master_moves = []

  -- The jobs that were executed along a run, in order.
  unfoldable pub executed : {p : Pool} → Reach min max p → List ℕ
  executed launched = []
  executed (next r s) = executed r ++ ran s

-- Whether a fiber has a job in its hand, before or while it executes it.
abbrev pub in_hand : ℕ → Pc → ℕ
in_hand f (holding g) = same f g
in_hand f (running g) = same f g
in_hand f _ = 0

abbrev pub holds : ℕ → WorkerFiber → ℕ
holds f w = in_hand f w.pc

module _ (f : ℕ) where
  worker_fn_-times :
      (st : QueueStatus) (js : List ℕ) (n : ℕ) (pc : Pc)
      → in_hand f (worker_fn_ st js n pc).pc + times f (work pc)
        ≡ in_hand f pc + times f (worker_fn_ st js n pc).took
  unfolding worker_fn_ total
  worker_fn_-times opened js n created = refl
  worker_fn_-times QueueStatus.closed js n created = refl
  worker_fn_-times opened js n top = refl
  worker_fn_-times QueueStatus.closed js n top = refl
  worker_fn_-times opened (g ∷ js) n popping = omega arith
  worker_fn_-times QueueStatus.closed (g ∷ js) n popping = omega arith
  worker_fn_-times opened [] n popping = refl
  worker_fn_-times QueueStatus.closed [] n popping = refl
  worker_fn_-times opened js n blocked = refl
  worker_fn_-times QueueStatus.closed js n blocked = refl
  worker_fn_-times opened js n (holding g) = refl
  worker_fn_-times QueueStatus.closed js n (holding g) = refl
  worker_fn_-times opened js n (running g) = omega arith
  worker_fn_-times QueueStatus.closed js n (running g) = omega arith
  worker_fn_-times opened js n sweeping = refl
  worker_fn_-times QueueStatus.closed js n sweeping = refl
  worker_fn_-times opened js n done = refl
  worker_fn_-times QueueStatus.closed js n done = refl

  wake-holds : (w : WorkerFiber) → holds f (wake w) ≡ holds f w
  wake-holds w = same_pc w.pc
    where
      same_pc : (pc : Pc) → in_hand f (wake (record w { pc = pc })).pc ≡ in_hand f pc
      same_pc created = refl
      same_pc top = refl
      same_pc popping = refl
      same_pc blocked = refl
      same_pc (holding g) = refl
      same_pc (running g) = refl
      same_pc sweeping = refl
      same_pc done = refl

  -- A step keeps the difference between the jobs taken and the jobs in somebody's hand, but for the
  -- job that it executes.
  Accounts : Pool → List ℕ → Pool → Type 0
  Accounts p js q =
      times f q.taken + total (holds f) p.fibs
      ≡ times f p.taken + times f js + total (holds f) q.fibs

  module _ (p : Pool) where
    detach_all-total : total (holds f) (detach_all p).fibs ≡ total (holds f) p.fibs
    unfolding detach_all
    detach_all-total = total-map (holds f) detach (λ w. refl) p.fibs

    insert_fiber-total :
        (at : ℕ) → total (holds f) (insert_fiber at p).fibs ≡ total (holds f) p.fibs
    unfolding insert_fiber worker_fiber
    insert_fiber-total at =
        omega (arith, total-insert_at (holds f) at (worker_fiber p.state) p.fibs)

    take_turn-Accounts :
        (i : ℕ) (w : WorkerFiber) (pc : Pc)
        → w.pc ≡ pc
        → get_elem? p.fibs i ≡ some w
        → Accounts p (work pc) (take_turn p i w (worker_fn_ p.state p.jobs p.spawned pc))
    unfolding Accounts take_turn
    take_turn-Accounts i w pc e here =
        let t = worker_fn_ p.state p.jobs p.spawned pc in
        omega (
          arith,
          ap (in_hand f) e,
          worker_fn_-times p.state p.jobs p.spawned pc,
          total-append (same f) p.taken t.took,
          total-set (holds f) p.fibs i w (record w { pc = t.pc }) here,
        )

    end_fiber-Accounts :
        (i : ℕ) (w : WorkerFiber)
        → w.pc ≡ sweeping
        → get_elem? p.fibs i ≡ some w
        → Accounts p [] (end_fiber p i w)
    unfolding Accounts end_fiber total
    end_fiber-Accounts i w e here = omega (
      arith,
      ap (in_hand f) e,
      total-set (holds f) p.fibs i w (record w { pc = done; terminated = true }) here,
    )

  -- A change of the map before or after that moves no job.
  after_detach : (p : Pool) (q : Pool) → Accounts (detach_all p) [] q → Accounts p [] q
  unfolding Accounts detach_all
  after_detach p q a = omega (arith, a, detach_all-total p)

  and_insert : (p : Pool) (q : Pool) (at : ℕ) → Accounts p [] q → Accounts p [] (insert_fiber at q)
  unfolding Accounts insert_fiber
  and_insert p q at a = omega (arith, a, insert_fiber-total q at)

  module _ (min max : ℕ) (p : Pool) where
    move_fiber-Accounts :
        (ready : Bool) (at i : ℕ) (w : WorkerFiber) (pc : Pc)
        → w.pc ≡ pc
        → get_elem? p.fibs i ≡ some w
        → Accounts p (work pc) (move_fiber min max ready at p i w pc)
    unfolding move_fiber detach_all
    move_fiber-Accounts ready at i w (holding g) e here =
        choose (ltb p.spawned max && (not (is_nil p.jobs) || not ready))
      where
        q : Pool
        q = take_turn p i w (worker_fn_ p.state p.jobs p.spawned (holding g))

        choose : (b : Bool) → Accounts p [] (if b then insert_fiber at q else q)
        choose true = and_insert p q at (take_turn-Accounts p i w (holding g) e here)
        choose false = take_turn-Accounts p i w (holding g) e here
    move_fiber-Accounts ready at i w sweeping e here =
        choose (is_nil p.jobs && (ltb min p.spawned && ready))
      where
        q : Pool
        q = detach_all p

        swept : get_elem? (map detach p.fibs) i ≡ some (detach w)
        swept = get_elem?-map detach p.fibs i w here

        goes_on : Pool
        goes_on = take_turn q i (detach w) (worker_fn_ p.state p.jobs p.spawned sweeping)

        choose : (b : Bool) → Accounts p [] (if b then end_fiber q i (detach w) else goes_on)
        choose true =
            after_detach p (end_fiber q i (detach w)) (end_fiber-Accounts q i (detach w) e swept)
        choose false = after_detach p goes_on (take_turn-Accounts q i (detach w) sweeping e swept)
    move_fiber-Accounts ready at i w created e here = take_turn-Accounts p i w created e here
    move_fiber-Accounts ready at i w top e here = take_turn-Accounts p i w top e here
    move_fiber-Accounts ready at i w popping e here = take_turn-Accounts p i w popping e here
    move_fiber-Accounts ready at i w blocked e here = take_turn-Accounts p i w blocked e here
    move_fiber-Accounts ready at i w (running g) e here =
        take_turn-Accounts p i w (running g) e here
    move_fiber-Accounts ready at i w done e here = take_turn-Accounts p i w done e here

    woken-Accounts :
        (i : ℕ) (w : WorkerFiber)
        → get_elem? p.fibs i ≡ some w
        → w.pc ≡ blocked
        → Accounts p [] (record p { fibs = set p.fibs i (record w { pc = popping }) })
    unfolding Accounts total
    woken-Accounts i w here e =
        omega
          (arith, ap (in_hand f) e, total-set (holds f) p.fibs i w (record w { pc = popping }) here)

    accept-Accounts :
        (st : QueueStatus) (g : ℕ) (w : Option (ℕ × WorkerFiber))
        → Wakes p.fibs w
        → Accounts p [] (accept st g w p)
    unfolding Accounts accept wake_one total
    accept-Accounts QueueStatus.closed g w h = omega arith
    accept-Accounts opened g none h = omega arith
    accept-Accounts opened g (some (i, w)) h =
        omega (
          arith,
          ap (in_hand f) h.1,
          total-set (holds f) p.fibs i w (record w { pc = popping }) h.0,
        )

    receive-Accounts : (o : Option Rendezvous) → Accounts p [] (receive p o)
    unfolding Accounts receive total
    receive-Accounts none = omega arith
    receive-Accounts (some r) = omega arith

    join_fiber-Accounts :
        (k : ℕ) (o : Option WorkerFiber) → get_elem? p.fibs k ≡ o → Accounts p [] (join_fiber k o p)
    unfolding Accounts join_fiber total
    join_fiber-Accounts k none here = omega arith
    join_fiber-Accounts k (some w) here = choose w.joinable (is_done w.pc)
      where
        joined : Pool
        joined = record p {
          fibs = set p.fibs k (record w { joinable = false });
          master = joins (suc k);
        }

        choose :
            (b c : Bool)
            → Accounts p []
                (if b then (if c then joined else p) else record p { master = joins (suc k) })
        choose true true =
            omega (arith, total-set (holds f) p.fibs k w (record w { joinable = false }) here)
        choose true false = omega arith
        choose false c = omega arith

    master_step-Accounts : (m : Master) → Accounts p [] (master_step m p)
    unfolding master_step Accounts close_pool total
    master_step-Accounts waits = receive-Accounts (Rendezvous.wait p.rdzv)
    master_step-Accounts closes = closed
      where
        closed : Accounts p [] (record (close_pool p) { master = joins 0 })
        closed = omega (arith, total-map (holds f) wake wake-holds p.fibs)
    master_step-Accounts (joins k) = join_fiber-Accounts k (get_elem? p.fibs k) refl
    master_step-Accounts Master.returned = omega arith

    Step-Accounts : {q : Pool} → (s : Step min max p q) → Accounts p (ran s) q
    unfolding Accounts submit_job request_shutdown move_master total
    Step-Accounts (fiber_moves ready at i w here there) =
        move_fiber-Accounts ready at i w w.pc refl here
    Step-Accounts (woken i w here e) = woken-Accounts i w here e
    Step-Accounts (submitted g w h) = accept-Accounts p.state g w h
    Step-Accounts notified = omega arith
    Step-Accounts master_moves = master_step-Accounts p.master

  Reach-times :
      {min max : ℕ} {p : Pool}
      → (r : Reach min max p) → times f p.taken ≡ times f (executed r) + total (holds f) p.fibs
  unfolding executed launch worker_fiber total Accounts
  Reach-times {min} launched = omega (arith, total-replicate (holds f) min (worker_fiber opened))
  Reach-times {min} {max} (next {p} r s) =
      omega (
        arith,
        Reach-times r,
        Step-Accounts min max p s,
        total-append (same f) (executed r) (ran s),
      )

-- With Min at least one, in any state that the pool reaches, the accepted jobs are those that
-- fibers have taken, in the order of acceptance, followed by those that wait; and any job has been
-- taken as often as it was executed by the fibers along the run that led here or is in a fiber's
-- hand.
pub Reach-executes :
    {min max : ℕ} {p : Pool}
    → 0 < min
    → (r : Reach min max p) (f : ℕ)
    → (p.offered ≡ p.taken ++ p.jobs)
      × (times f p.taken ≡ times f (executed r) + total (holds f) p.fibs)
Reach-executes {min} {max} positive r f = (Reach-fifo min max positive r, Reach-times f r)
