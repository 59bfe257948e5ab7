-- ===== src/DynamicPool/Accepted.antt =====
-- A job that is put into the queue keeps the invariant.
use boost_job.Common.{
  ℕ, ◌+◌, ◌≤◌, ◌<◌, ◌≡◌, refl, ap, ◌∙◌, Option, none, some, List, [], ◌∷◌, ◌++◌, append_assoc,
  length, length-set, total, total-set, total-le_length, arith,
}
use boost_job.Queue.{QueueStatus, opened}
use boost_job.DynamicPool.{Pc, popping, WorkerFiber, Pool, wake_one, accept, waiter, Wakes}
use boost_job.DynamicPool.Weights.{waits_pc, there, is_there, idle, is_idle}
use boost_job.DynamicPool.Invariant.{Inv}
use boost_job.DynamicPool.Fibers.{woken-Inv}

module _ (min max : ℕ) {p : Pool} (inv : Inv min p) where
  module _ (w : ℕ) (positive : 0 < min) where
    idle-balance :
        (fs : List WorkerFiber)
        → total is_idle fs + total is_there fs ≡ total waits_pc fs + length fs
    unfolding total
    idle-balance [] = refl
    idle-balance (f ∷ fs) = omega (arith, idle-balance fs, places f.pc)
      where
        places : (pc : Pc) → idle pc + there pc ≡ waiter pc + 1
        places pc = ground arith

    is_idle_small : (f : WorkerFiber) → is_idle f ≤ 1
    is_idle_small f = places f.pc
      where
        places : (pc : Pc) → idle pc ≤ 1
        places pc = ground arith

    accepted : p.offered ++ w ∷ [] ≡ p.taken ++ (p.jobs ++ w ∷ [])
    accepted = ap (λ js. js ++ w ∷ []) inv.fifo ∙ append_assoc p.taken p.jobs (w ∷ [])

    pub accept-Inv :
        (st : QueueStatus) (o : Option (ℕ × WorkerFiber))
        → p.state ≡ st
        → Wakes p.fibs o
        → Inv min (accept st w o p)
    unfolding accept wake_one
    accept-Inv QueueStatus.closed o e h = inv
    accept-Inv opened none e h = record {
      fifo = accepted;
      counted = inv.counted;
      kept = inv.kept;
      awake = λ o ne. omega (arith, idle-balance p.fibs, h, inv.kept o, positive);
      released = inv.released;
      on_time = inv.on_time;
      marked = inv.marked;
      grown = inv.grown;
      stage = inv.stage;
    }
    accept-Inv opened (some (i, f)) e (at, b) =
        let v = woken-Inv min max inv i f at b in
        record {
          fifo = accepted;
          counted = v.counted;
          kept = v.kept;
          awake = λ o ne. omega (
            arith,
            total-set is_idle p.fibs i f (record f { pc = popping }) at,
            ap idle b,
            total-le_length is_idle is_idle_small p.fibs,
            length-set p.fibs i (record f { pc = popping }),
          );
          released = v.released;
          on_time = v.on_time;
          marked = v.marked;
          grown = v.grown;
          stage = v.stage;
        }
