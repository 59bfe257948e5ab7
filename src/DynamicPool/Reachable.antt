-- ===== src/DynamicPool/Reachable.antt =====
-- Every step keeps the invariant.
use boost_job.Common.{
  ℕ, suc, ◌+◌, ◌<◌, ◌≡◌, refl, sym, ap, ◌∙◌, inl, inr, Bool, true, false, Option, none, some, List,
  [], ◌∷◌, map, length-set, length-map, length-replicate, get_elem?, set, total, total-set,
  total-map, get_elem?-le-total, get_elem?-le-length, get_elem?-lt-length, get_elem?-set_self,
  total-replicate, total_below, total_below-set_le, total_below-suc, total_below-all, if◌then◌else◌,
  Bool-cases, arith,
}
use boost_job.Queue.{QueueStatus, opened}
use boost_job.Rendezvous
use boost_job.Rendezvous.{Rendezvous}
use boost_job.StaticPool.{Master, waits, closes, joins}
use boost_job.DynamicPool.{
  Pc, done, WorkerFiber, Pool, worker_fiber, launch, wake, close_pool, is_done, join_fiber, receive,
  master_step, move_master, submit_job, request_shutdown, Step, fiber_moves, woken, submitted,
  notified, master_moves, Reach, launched, next,
}
use boost_job.DynamicPool.Weights.{
  waits_pc, is_active, there, is_there, is_idle, is_holding, is_late, mismarked, unfinished,
  wake_all, wake-active, wake-holding, wake-mismarked,
}
use boost_job.DynamicPool.Invariant.{Stage, Inv}
use boost_job.DynamicPool.Fibers.{move_fiber-Inv, woken-Inv}
use boost_job.DynamicPool.Accepted.{accept-Inv}

module _ (min max : ℕ) {p : Pool} (inv : Inv min p) where
  wake-total : (fs : List WorkerFiber) → total waits_pc (map wake fs) ≡ 0
  unfolding total
  wake-total [] = refl
  wake-total (f ∷ fs) = omega (arith, wake_all f, wake-total fs)

  close-Inv : Inv min (record (close_pool p) { master = joins 0 })
  unfolding close_pool total_below
  close-Inv = record {
    fifo = inv.fifo;
    counted = omega (arith, inv.counted, total-map is_active wake wake-active p.fibs);
    kept = λ o. absurd cc;
    awake = λ o ne. absurd cc;
    released = λ c. wake-total p.fibs;
    on_time = λ o. absurd cc;
    marked = omega (arith, inv.marked, total-map mismarked wake wake-mismarked p.fibs);
    grown =
        omega
          (arith, inv.grown, total-map is_holding wake wake-holding p.fibs, length-map wake p.fibs);
    stage = (refl, refl);
  }

  -- The invariant with the master at another place.
  at_master : (m : Master) → Stage m p.state p.fibs → Inv min (record p { master = m })
  at_master m s = record {
    fifo = inv.fifo;
    counted = inv.counted;
    kept = inv.kept;
    awake = inv.awake;
    released = inv.released;
    on_time = inv.on_time;
    marked = inv.marked;
    grown = inv.grown;
    stage = s;
  }

  module _ (k : ℕ) (closed : p.state ≡ QueueStatus.closed)
      (joined : total_below unfinished k p.fibs ≡ 0) where
    joined-Inv :
        (f : WorkerFiber)
        → get_elem? p.fibs k ≡ some f
        → f.pc ≡ done
        → Inv min (record p {
          fibs = set p.fibs k (record f { joinable = false });
          master = joins (suc k);
        })
    joined-Inv f at e = record {
      fifo = inv.fifo;
      counted = omega (arith, inv.counted, change is_active);
      kept = λ o. omega (arith, inv.kept o, change is_there);
      awake = λ o ne. omega (arith, inv.awake o ne, change is_idle, length-set p.fibs k f');
      released = λ c. omega (arith, inv.released c, change waits_pc);
      on_time = λ o. omega (arith, inv.on_time o, change is_late);
      marked = omega (arith, inv.marked, change mismarked, marks);
      grown = omega (arith, inv.grown, change is_holding, length-set p.fibs k f');
      stage = (
        closed,
        omega (
          arith,
          total_below-suc unfinished k (set p.fibs k f') f'
              (get_elem?-set_self p.fibs k f' (get_elem?-lt-length p.fibs k f at)),
          total_below-set_le unfinished k p.fibs k f f' at (omega arith),
          joined,
          gone,
        ),
      );
    }
      where
        f' : WorkerFiber
        f' = record f { joinable = false }

        change : (w : WorkerFiber → ℕ) → total w (set p.fibs k f') + w f ≡ total w p.fibs + w f'
        change w = total-set w p.fibs k f f' at

        none_there : there f.pc ≡ 0
        none_there = ap there e

        marks : mismarked f' ≡ 0
        marks = ground (arith, none_there)

        gone : unfinished f' ≡ 0
        gone = ground (arith, none_there)

    detached-gone :
        (f : WorkerFiber) → get_elem? p.fibs k ≡ some f → f.joinable ≡ false → unfinished f ≡ 0
    detached-gone f at e = ground (arith, none_marked)
      where
        none_marked : mismarked f ≡ 0
        none_marked = omega (arith, get_elem?-le-total mismarked p.fibs k f at, inv.marked)

    join_fiber-Inv : (o : Option WorkerFiber) → get_elem? p.fibs k ≡ o → Inv min (join_fiber k o p)
    unfolding join_fiber
    join_fiber-Inv none e = at_master Master.returned (
      closed,
      sym (total_below-all unfinished k p.fibs (get_elem?-le-length p.fibs k e)) ∙ joined,
    )
    join_fiber-Inv (some f) e = elim (Bool-cases f.joinable) [
      | inl j ↦ rw j (waits_for (is_done f.pc) refl)
      | inr j ↦ rw j (
          at_master (joins (suc k)) (
            closed,
            omega (arith, total_below-suc unfinished k p.fibs f e, joined, detached-gone f e j),
          ))
    ]
      where
        is_done_eq : (pc : Pc) → is_done pc ≡ true → pc ≡ done
        is_done_eq pc h = ground arith

        waits_for :
            (b : Bool)
            → is_done f.pc ≡ b
            → Inv min (
                if b
                then record p {
                  fibs = set p.fibs k (record f { joinable = false });
                  master = joins (suc k);
                }
                else p)
        waits_for true d = joined-Inv f e (is_done_eq f.pc d)
        waits_for false d = inv

  receive-Inv : (o : Option Rendezvous) → p.state ≡ opened → Inv min (receive p o)
  unfolding receive
  receive-Inv none e = inv
  receive-Inv (some r) e = record {
    fifo = inv.fifo;
    counted = inv.counted;
    kept = inv.kept;
    awake = inv.awake;
    released = inv.released;
    on_time = inv.on_time;
    marked = inv.marked;
    grown = inv.grown;
    stage = e;
  }

  master_step-Inv : (m : Master) → Stage m p.state p.fibs → Inv min (master_step m p)
  unfolding master_step
  master_step-Inv waits s = receive-Inv (Rendezvous.wait p.rdzv) s
  master_step-Inv closes s = close-Inv
  master_step-Inv (joins k) s = join_fiber-Inv k s.0 s.1 (get_elem? p.fibs k) refl
  master_step-Inv Master.returned s = inv

  request_shutdown-Inv : Inv min (request_shutdown p)
  unfolding request_shutdown
  request_shutdown-Inv = record {
    fifo = inv.fifo;
    counted = inv.counted;
    kept = inv.kept;
    awake = inv.awake;
    released = inv.released;
    on_time = inv.on_time;
    marked = inv.marked;
    grown = inv.grown;
    stage = inv.stage;
  }

  step-Inv : {q : Pool} → 0 < min → Step min max p q → Inv min q
  unfolding submit_job move_master
  step-Inv positive (fiber_moves ready at i f e h) =
      move_fiber-Inv min max inv ready at i f f.pc refl e
  step-Inv positive (woken i f e b) = woken-Inv min max inv i f e b
  step-Inv positive (submitted f w h) = accept-Inv min max inv f positive p.state w refl h
  step-Inv positive notified = request_shutdown-Inv
  step-Inv positive master_moves = master_step-Inv p.master inv.stage

launch-Inv : (min max : ℕ) → Inv min (launch min max)
unfolding launch worker_fiber
launch-Inv min max = record {
  fifo = refl;
  counted = omega (arith, total-replicate is_active min new);
  kept = λ o. omega (arith, total-replicate is_there min new);
  awake = λ o ne. absurd (ne refl);
  released = λ c. absurd cc;
  on_time = λ o. omega (arith, total-replicate is_late min new);
  marked = omega (arith, total-replicate mismarked min new);
  grown = omega (arith, total-replicate is_holding min new, length-replicate min new);
  stage = refl;
}
  where
    new : WorkerFiber
    new = worker_fiber opened

pub Reach-Inv : (min max : ℕ) → 0 < min → {p : Pool} → Reach min max p → Inv min p
Reach-Inv min max positive launched = launch-Inv min max
Reach-Inv min max positive (next r s) = step-Inv min max (Reach-Inv min max positive r) positive s
