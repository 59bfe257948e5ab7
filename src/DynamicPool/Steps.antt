-- ===== src/DynamicPool/Steps.antt =====
-- The parts of a step of a fiber keep the invariant.
use boost_job.Common.{
  ℕ, ◌+◌, ◌-◌, ◌≤◌, ◌<◌, ◌≡◌, refl, ap, subst, inl, inr, Bool, true, false, some, List, [], ◌∷◌,
  ◌++◌, map, length, length-map, length-insert_at, get_elem?, set, total, total-map,
  total-insert_at, get_elem?-le-total, total_below-map_le, total_below-insert_before,
  total_below-insert_behind, insert_at, leb, if◌then◌else◌, Bool-cases, arith,
}
use boost_job.Queue.{QueueStatus, opened}
use boost_job.StaticPool.{Master, waits, closes, joins}
use boost_job.DynamicPool.{
  sweeping, done, WorkerFiber, Pool, worker_fiber, detach, Turn, take_turn, shift, insert_fiber,
  detach_all, end_fiber,
}
use boost_job.DynamicPool.Weights.{
  waits_pc, live, is_active, there, is_there, is_idle, is_holding, is_late, mismarked, unfinished,
  mismarked-detach,
}
use boost_job.DynamicPool.Invariant.{Stage, Inv}
use boost_job.DynamicPool.Local.{local-Inv, Fair}

module _ {min : ℕ} {p : Pool} (inv : Inv min p) where
  active-le : (i : ℕ) (f : WorkerFiber) → get_elem? p.fibs i ≡ some f → is_active f ≤ p.spawned
  active-le i f at = omega (arith, inv.counted, get_elem?-le-total is_active p.fibs i f at)

  pub turn-Inv :
      (i : ℕ) (f : WorkerFiber) (t : Turn)
      → get_elem? p.fibs i ≡ some f
      → Fair p.state p.jobs p.spawned f.pc t
      → Inv min (take_turn p i f t)
  unfolding take_turn
  turn-Inv i f t at fair =
      local-Inv inv i f (record f { pc = t.pc }) at t.left t.took t.count
        (record {
          splits = fair.splits;
          counts = fair.counts (active-le i f at);
          keeps = λ o. inl (fair.stays o);
          drops = fair.drops;
          idles = fair.idles;
          wakes = fair.wakes;
          late = refl;
          marks = ground (arith, fair.drops);
          holds = fair.holds;
          ends = ground (arith, fair.drops);
        })

  -- A fiber that ends itself leaves the queue empty and Min others.
  pub end_fiber-Inv :
      (i : ℕ) (f : WorkerFiber)
      → get_elem? p.fibs i ≡ some f
      → f.pc ≡ sweeping
      → p.jobs ≡ []
      → min < p.spawned
      → Inv min (end_fiber p i f)
  unfolding end_fiber
  end_fiber-Inv i f at e empty more =
      subst (λ q. Inv min q) (same p.taken p.jobs)
        (local-Inv inv i f (record f { pc = done; terminated = true }) at p.jobs [] (p.spawned - 1)
          (record {
            splits = refl;
            counts = omega (arith, ap live e, more);
            keeps = λ _. inr more;
            drops = omega arith;
            idles = λ _. inr empty;
            wakes = λ _. omega arith;
            late = refl;
            marks = omega arith;
            holds = omega arith;
            ends = ends f.late;
          }))
    where
      ends : (l : Bool) → (if l then 0 else 0) ≤ (if l then 0 else there f.pc)
      ends l = ground arith

      append_nil : (xs : List ℕ) → xs ++ [] ≡ xs
      append_nil [] = refl
      append_nil (x ∷ xs) = ap (λ ys. x ∷ ys) (append_nil xs)

      same :
          (taken jobs : List ℕ)
          → record p {
            jobs = p.jobs;
            fibs = set p.fibs i (record f { pc = done; terminated = true });
            spawned = p.spawned - 1;
            taken = p.taken ++ [];
          }
            ≡ record p {
              fibs = set p.fibs i (record f { pc = done; terminated = true });
              spawned = p.spawned - 1;
            }
      same taken jobs =
          ap
            (λ t. record p {
              fibs = set p.fibs i (record f { pc = done; terminated = true });
              spawned = p.spawned - 1;
              taken = t;
            })
            (append_nil p.taken)

  detach-Stage :
      (m : Master) (st : QueueStatus) (fs : List WorkerFiber)
      → Stage m st fs
      → Stage m st (map detach fs)
  detach-Stage waits st fs s = s
  detach-Stage closes st fs s = s
  detach-Stage (joins k) st fs s =
      (s.0, omega (arith, s.1, total_below-map_le unfinished k detach (λ f. omega arith) fs))
  detach-Stage Master.returned st fs s =
      (s.0, omega (arith, s.1, total-map unfinished detach (λ f. refl) fs))

  pub detach_all-Inv : Inv min (detach_all p)
  unfolding detach_all
  detach_all-Inv = record {
    fifo = inv.fifo;
    counted = omega (arith, inv.counted, total-map is_active detach (λ f. refl) p.fibs);
    kept = λ o. omega (arith, inv.kept o, total-map is_there detach (λ f. refl) p.fibs);
    awake = λ o ne. omega (
      arith,
      inv.awake o ne,
      total-map is_idle detach (λ f. refl) p.fibs,
      length-map detach p.fibs,
    );
    released = λ c. omega (arith, inv.released c, total-map waits_pc detach (λ f. refl) p.fibs);
    on_time = λ o. omega (arith, inv.on_time o, total-map is_late detach (λ f. refl) p.fibs);
    marked = omega (arith, inv.marked, total-map mismarked detach mismarked-detach p.fibs);
    grown = omega (
      arith,
      inv.grown,
      total-map is_holding detach (λ f. refl) p.fibs,
      length-map detach p.fibs,
    );
    stage = detach-Stage p.master p.state p.fibs inv.stage;
  }

  -- A new entry, made in time or late.
  insert-Stage :
      (at : ℕ) (m : Master) (st : QueueStatus) (fs : List WorkerFiber)
      → Stage m st fs
      → Stage (shift at m) st (insert_at at (worker_fiber st) fs)
  unfolding worker_fiber
  insert-Stage at waits st fs s = s
  insert-Stage at closes st fs s = s
  insert-Stage at Master.returned QueueStatus.closed fs s =
      (refl, omega (arith, s.1, total-insert_at unfinished at (worker_fiber QueueStatus.closed) fs))
  insert-Stage at Master.returned opened fs s = absurd (cc (s.0))
  insert-Stage at (joins k) opened fs s = absurd (cc (s.0))
  insert-Stage at (joins k) QueueStatus.closed fs s = elim (Bool-cases (leb at k)) [
    | inl b ↦ rw b (
      refl,
      omega (
        arith,
        s.1,
        total_below-insert_before unfinished k at (worker_fiber QueueStatus.closed) fs
            (leb_le at k b),
      ),
    )
    | inr b ↦ rw b (
      refl,
      omega (
        arith,
        s.1,
        total_below-insert_behind unfinished k at (worker_fiber QueueStatus.closed) fs
            (not_leb_lt at k b),
      ),
    )
  ]
    where
      leb_le : (a b : ℕ) → leb a b ≡ true → a ≤ b
      leb_le a b h = ground arith

      not_leb_lt : (a b : ℕ) → leb a b ≡ false → b < a
      not_leb_lt a b h = ground arith

  pub insert_fiber-Inv :
      (at : ℕ)
      → length p.fibs + total is_holding p.fibs < min + length p.taken
      → Inv min (insert_fiber at p)
  unfolding insert_fiber worker_fiber
  insert_fiber-Inv at slack = record {
    fifo = inv.fifo;
    counted = omega (arith, inv.counted, total-insert_at is_active at new p.fibs);
    kept = λ o. omega (arith, inv.kept o, total-insert_at is_there at new p.fibs);
    awake = λ o ne. omega (
      arith,
      inv.awake o ne,
      total-insert_at is_idle at new p.fibs,
      length-insert_at at new p.fibs,
    );
    released = λ c. omega (arith, inv.released c, total-insert_at waits_pc at new p.fibs);
    on_time =
        λ o. omega (arith, inv.on_time o, total-insert_at is_late at new p.fibs, in_time p.state o);
    marked = omega (arith, inv.marked, total-insert_at mismarked at new p.fibs);
    grown =
        omega
          (arith, slack, total-insert_at is_holding at new p.fibs, length-insert_at at new p.fibs);
    stage = insert-Stage at p.master p.state p.fibs inv.stage;
  }
    where
      new : WorkerFiber
      new = worker_fiber p.state

      in_time : (st : QueueStatus) → st ≡ opened → is_late (worker_fiber st) ≡ 0
      in_time opened e = refl
      in_time QueueStatus.closed e = absurd cc
