-- ===== src/StaticPool/Shutdown.antt =====
-- What the steps of a pool lead to: the jobs in order, no lost wakeup, and the end of `operator()`.
use boost_job.Common.{
  ℕ, zero, suc, ◌<◌, ◌≡◌, refl, sym, ap, subst, ◌∙◌, ◌≢◌, Option, none, some, [], ◌++◌,
  length-replicate, get_elem?, length, set, replicate, total, total-set, get_elem?-le-total,
  light_member, arith,
}
use boost_job.Queue.{QueueStatus, opened}
use boost_job.Rendezvous
use boost_job.Rendezvous.{Rendezvous}
use boost_job.StaticPool.{
  Pc, top, done, Master, waits, closes, joins, returned, Pool, launch, fiber_step, move_fiber,
  close_pool, join_step, receive, master_step, move_master, request_shutdown, is_blocked, Step,
  fiber_moves, woken, submitted, notified, master_moves, Reach, launched, next,
}
use boost_job.StaticPool.Turns.{is_done, steps_left, closed_step_lem, wake-total, wake-length}
use boost_job.StaticPool.Invariant.{Stage, Inv}
use boost_job.StaticPool.Moves.{move_fiber-Inv, woken-Inv, submit_job-Inv, join-Stage}

launch-Inv : (n : ℕ) → Inv n (launch n)
unfolding launch total
launch-Inv n = record {
  size = length-replicate n top;
  fifo = refl;
  awake = λ ne. absurd (ne refl);
  released = λ c. absurd cc;
  at_work = λ o. idle is_done refl n;
  stage = refl;
}
  where
    idle : (w : Pc → ℕ) → w top ≡ 0 → (n : ℕ) → total w (replicate n top) ≡ 0
    idle w e zero = refl
    idle w e (suc n) = omega (arith, e, idle w e n)

module _ {n : ℕ} {p : Pool} (inv : Inv n p) where
  receive-Inv : (o : Option Rendezvous) → p.state ≡ opened → Inv n (receive p o)
  unfolding receive
  receive-Inv none e = inv
  receive-Inv (some r) e = record {
    size = inv.size;
    fifo = inv.fifo;
    awake = inv.awake;
    released = inv.released;
    at_work = inv.at_work;
    stage = e;
  }

  close-Inv : 0 < n → Inv n (record (close_pool p) { master = joins 0 })
  unfolding close_pool
  close-Inv positive = record {
    size = wake-length p.fibers ∙ inv.size;
    fifo = inv.fifo;
    awake = λ ne. omega (arith, wake-total p.fibers, positive);
    released = λ c. wake-total p.fibers;
    at_work = λ o. absurd cc;
    stage = (refl, λ j h. absurd (omega arith));
  }

  master_step-Inv :
      (m : Master) → p.master ≡ m → Stage m p.state p.fibers → 0 < n → Inv n (master_step m p)
  unfolding master_step
  master_step-Inv waits e s positive = receive-Inv (Rendezvous.wait p.rdzv) s
  master_step-Inv closes e s positive = close-Inv positive
  master_step-Inv (joins k) e s positive = record {
    size = inv.size;
    fifo = inv.fifo;
    awake = inv.awake;
    released = inv.released;
    at_work = inv.at_work;
    stage =
        subst (λ st. Stage (join_step k (get_elem? p.fibers k)) st p.fibers) (sym s.0)
          (join-Stage p.fibers k (get_elem? p.fibers k) refl s.1);
  }
  master_step-Inv returned e s positive = inv

  move_master-Inv : 0 < n → Inv n (move_master p)
  unfolding move_master
  move_master-Inv positive = master_step-Inv p.master refl inv.stage positive

  request_shutdown-Inv : Inv n (request_shutdown p)
  unfolding request_shutdown
  request_shutdown-Inv = record {
    size = inv.size;
    fifo = inv.fifo;
    awake = inv.awake;
    released = inv.released;
    at_work = inv.at_work;
    stage = inv.stage;
  }

  pub Step-Inv : {q : Pool} → 0 < n → Step p q → Inv n q
  Step-Inv positive (fiber_moves i pc e) = move_fiber-Inv inv i pc e
  Step-Inv positive (woken i e) = woken-Inv inv i e
  Step-Inv positive (submitted f w h) = submit_job-Inv inv f positive w h
  Step-Inv positive notified = request_shutdown-Inv
  Step-Inv positive master_moves = move_master-Inv positive

module _ {n : ℕ} (positive : 0 < n) where
  pub Reach-Inv : {p : Pool} → Reach n p → Inv n p
  Reach-Inv launched = launch-Inv n
  Reach-Inv (next r s) = Step-Inv (Reach-Inv r) positive s

  module _ {p : Pool} (reach : Reach n p) where
    -- In any state that a pool of at least one fiber reaches, the accepted jobs are those that fibers
    -- have taken, in the order of acceptance, followed by those that wait: none is lost, taken
    -- twice or overtaken.
    pub Reach-in_order : p.offered ≡ p.taken ++ p.jobs
    Reach-in_order = (Reach-Inv reach).fifo

    -- In any state that a pool of at least one fiber reaches with the queue open, if a job waits,
    -- then some fiber is neither blocked in `pop` nor at its end.
    pub Reach-no_lost_wakeup :
        p.state ≡ opened
        → p.jobs ≢ []
        → (i : ℕ) × (pc : Pc) × (get_elem? p.fibers i ≡ some pc) × (is_blocked pc ≡ 0) × (pc ≢ done)
    Reach-no_lost_wakeup o ne =
        let inv = Reach-Inv reach in
        let (i, pc, e, free) =
          light_member is_blocked p.fibers (omega (arith, inv.awake ne, inv.size)) in
        (
          i,
          pc,
          e,
          free,
          λ d. absurd (
              omega
                (arith, get_elem?-le-total is_done p.fibers i pc e, inv.at_work o, ap is_done d)),
        )

    -- In any state that a pool of at least one fiber reaches with the queue closed, a fiber that has
    -- not ended is not blocked, and a step of it lowers the steps that are left in total.
    pub closed-steps_left :
        p.state ≡ QueueStatus.closed
        → (i : ℕ) (pc : Pc) → get_elem? p.fibers i ≡ some pc
        → pc ≢ done
        → (is_blocked pc ≡ 0)
          × (total steps_left (move_fiber p i pc).fibers < total steps_left p.fibers)
    unfolding move_fiber
    closed-steps_left c i pc e ne = (free, lower p.state c)
      where
        free : is_blocked pc ≡ 0
        free =
            omega
              (arith, get_elem?-le-total is_blocked p.fibers i pc e, (Reach-Inv reach).released c)

        lower :
            (st : QueueStatus)
            → st ≡ QueueStatus.closed
            → total steps_left (set p.fibers i (fiber_step st p.jobs pc).pc)
              < total steps_left p.fibers
        lower opened c = absurd cc
        lower QueueStatus.closed c = omega (
          arith,
          total-set steps_left p.fibers i pc (fiber_step QueueStatus.closed p.jobs pc).pc e,
          closed_step_lem p.jobs pc ne free,
        )

    -- If `operator()` of a pool of at least one fiber has returned, the queue is closed and every
    -- fiber of the pool, by its index, has ended.
    pub returned-done :
        p.master ≡ returned
        → (i : ℕ) → i < length p.fibers
        → (p.state ≡ QueueStatus.closed) × (get_elem? p.fibers i ≡ some done)
    returned-done e i h =
        let (c, all) = subst (λ m. Stage m p.state p.fibers) e (Reach-Inv reach).stage in
        (c, all i h)
