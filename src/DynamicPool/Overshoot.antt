-- ===== src/DynamicPool/Overshoot.antt =====
-- A run in which more than Max fibers are active: the test of the counter does not see the fibers
-- that are made and not started.
use boost_job.Common.{
  ℕ, zero, suc, ◌+◌, ◌<◌, ◌≡◌, refl, ap, subst, true, false, ◌&&◌, none, some, List, [], ◌∷◌, ◌++◌,
  map, length, get_elem?, set, replicate, total, total-replicate, ltb, if◌then◌else◌, arith,
}
use boost_job.Queue.{opened}
use boost_job.Rendezvous
use boost_job.StaticPool.{waits}
use boost_job.DynamicPool.{
  Pc, created, top, popping, holding, running, sweeping, WorkerFiber, Pool, worker_fiber, detach,
  worker_fn_, take_turn, insert_fiber, detach_all, end_fiber, launch, move_fiber, wake_one, accept,
  submit_job, fiber_moves, submitted, Reach, launched, next,
}
use boost_job.DynamicPool.Weights.{waits_pc}

abbrev at_pc : Pc → WorkerFiber
at_pc pc = record { pc = pc; terminated = false; joinable = true; late = false }

abbrev state : List ℕ → List WorkerFiber → ℕ → List ℕ → List ℕ → Pool
state js fs n offered taken = record {
  state = opened;
  jobs = js;
  rdzv = record { flag = false };
  fibs = fs;
  spawned = n;
  master = waits;
  offered = offered;
  taken = taken;
}

abbrev fibers : Pc → ℕ → List WorkerFiber
fibers pc k = at_pc pc ∷ replicate k (at_pc created)

none_waits : (k : ℕ) → total waits_pc (fibers top k) ≡ 0
unfolding total
none_waits k = omega (arith, total-replicate waits_pc k (at_pc created))

detach-new : (k : ℕ) → map detach (replicate k (at_pc created)) ≡ replicate k (at_pc created)
detach-new zero = refl
detach-new (suc k) = ap (λ fs. at_pc created ∷ fs) (detach-new k)

set-length :
    (pre fs : List WorkerFiber) (f f' : WorkerFiber)
    → set (pre ++ f ∷ fs) (length pre) f' ≡ (pre ++ f' ∷ []) ++ fs
set-length [] fs f f' = refl
set-length (g ∷ pre) fs f f' = ap (λ gs. g ∷ gs) (set-length pre fs f f')

get_elem?-length :
    (pre fs : List WorkerFiber) (f : WorkerFiber) → get_elem? (pre ++ f ∷ fs) (length pre) ≡ some f
get_elem?-length [] fs f = refl
get_elem?-length (g ∷ pre) fs f = get_elem?-length pre fs f

module _ (max : ℕ) (more : 1 < max) where
  -- A job comes while another waits. The first fiber takes that one, makes a fiber, and comes back.
  taking :
      (k j i : ℕ) (os ts : List ℕ)
      → Reach 1 max (state (j ∷ []) (fibers top k) 1 os ts)
      → Reach 1 max (state (i ∷ []) (fibers (holding j) k) 1 (os ++ i ∷ []) ((ts ++ []) ++ j ∷ []))
  unfolding move_fiber worker_fn_ take_turn submit_job accept wake_one
  taking k j i os ts r =
      next
        (next (next r (submitted i none (none_waits k)))
          (fiber_moves true 0 0 (at_pc top) refl (omega arith)))
        (fiber_moves true 0 0 (at_pc popping) refl (omega arith))

  spawning :
      (k j i : ℕ) (os ts : List ℕ)
      → Reach 1 max (state (i ∷ []) (fibers (holding j) k) 1 os ts)
      → Reach 1 max (state (i ∷ []) (fibers (running j) (suc k)) 1 os (ts ++ []))
  unfolding move_fiber worker_fn_ take_turn insert_fiber worker_fiber
  spawning k j i os ts r =
      subst (λ q. Reach 1 max q)
        (ap
          (λ b.
            if b && true
            then state (i ∷ []) (fibers (running j) (suc k)) 1 os (ts ++ [])
            else state (i ∷ []) (fibers (running j) k) 1 os (ts ++ []))
          below)
        (next r (fiber_moves true 1 0 (at_pc (holding j)) refl (omega arith)))
    where
      below : ltb 1 max ≡ true
      below = ground arith

  returning :
      (k j i : ℕ) (os ts : List ℕ)
      → Reach 1 max (state (i ∷ []) (fibers (running j) (suc k)) 1 os ts)
      → Reach 1 max (state (i ∷ []) (fibers top (suc k)) 1 os ((ts ++ []) ++ []))
  unfolding move_fiber worker_fn_ take_turn detach_all end_fiber
  returning k j i os ts r =
      subst (λ fs. Reach 1 max (state (i ∷ []) (at_pc top ∷ fs) 1 os ((ts ++ []) ++ [])))
        (detach-new (suc k))
        (next (next r (fiber_moves true 0 0 (at_pc (running j)) refl (omega arith)))
          (fiber_moves true 0 0 (at_pc sweeping) refl (omega arith)))

  -- After `k` further jobs there are `k` fibers that are made and not started.
  made :
      (k : ℕ)
      → (j : ℕ) × (os : List ℕ) × (ts : List ℕ) × Reach 1 max
          (state (j ∷ []) (fibers top k) 1 os ts)
  unfolding launch move_fiber worker_fn_ take_turn worker_fiber submit_job accept wake_one
      Rendezvous.fresh total
  made zero = (
    0,
    0 ∷ [],
    [],
    next (next launched (fiber_moves true 0 0 (at_pc created) refl (omega arith)))
        (submitted 0 none refl),
  )
  made (suc k) =
      let (j, os, ts, r) = made k in
      let r₁ = taking k j k os ts r in
      let r₂ = spawning k j k (os ++ k ∷ []) ((ts ++ []) ++ j ∷ []) r₁ in
      (k, _, _, returning k j k (os ++ k ∷ []) (((ts ++ []) ++ j ∷ []) ++ []) r₂)

  -- They start one after the other.
  starting :
      (k n : ℕ) (pre : List WorkerFiber) (js os ts : List ℕ)
      → Reach 1 max (state js (pre ++ replicate k (at_pc created)) n os ts)
      → (p : Pool) × Reach 1 max p × (p.state ≡ opened) × (p.spawned ≡ n + k)
  unfolding move_fiber worker_fn_ take_turn
  starting zero n pre js os ts r = (_, r, refl, omega arith)
  starting (suc k) n pre js os ts r =
      let (p, reach, o, count) = starting k (suc n) (pre ++ at_pc top ∷ []) js os (ts ++ []) (
        subst (λ fs. Reach 1 max (state js fs (suc n) os (ts ++ [])))
          (set-length pre (replicate k (at_pc created)) (at_pc created) (at_pc top))
          (next r (
            fiber_moves true 0 (length pre) (at_pc created)
              (get_elem?-length pre (replicate k (at_pc created)) (at_pc created))
              (omega arith)))) in
      (p, reach, o, omega (arith, count))

  -- With Min one and any Max above one, for every number there is a run that leads to so many further
  -- active fibers: the counter has no bound, while the queue is open.
  pub spawned_unbounded :
      (k : ℕ) → (p : Pool) × Reach 1 max p × (p.state ≡ opened) × (p.spawned ≡ 1 + k)
  spawned_unbounded k =
      let (j, os, ts, r) = made k in starting k 1 (at_pc top ∷ []) (j ∷ []) os ts r
