-- ===== src/DynamicPool/Fibers.antt =====
-- The steps of the fibers keep the invariant.
use boost_job.Common.{
  ℕ, ◌+◌, ◌≤◌, ◌<◌, ◌≡◌, refl, sym, ap, subst, Bool, true, false, not, ◌&&◌, ◌||◌, some, List, [],
  ◌∷◌, length, length-append, length-set, get_elem?, get_elem?-map, set, total, total-set, ltb,
  if◌then◌else◌, arith,
}
use boost_job.DynamicPool.{
  Pc, created, top, popping, blocked, holding, running, sweeping, done, WorkerFiber, Pool, is_nil,
  detach, worker_fn_, take_turn, insert_fiber, detach_all, end_fiber, move_fiber, waiter,
}
use boost_job.DynamicPool.Weights.{
  waits_pc, live, is_active, there, is_there, idle, is_idle, held, is_holding, is_late, mismarked,
  unfinished,
}
use boost_job.DynamicPool.Invariant.{Inv}
use boost_job.DynamicPool.Local.{set-Stage, Fair, worker_fn_-Fair}
use boost_job.DynamicPool.Steps.{turn-Inv, end_fiber-Inv, detach_all-Inv, insert_fiber-Inv}

is_nil_eq : (js : List ℕ) → is_nil js ≡ true → js ≡ []
is_nil_eq [] e = refl
is_nil_eq (f ∷ js) e = cc

module _ (min max : ℕ) {p : Pool} (inv : Inv min p) where
  worker_fn_-Inv :
      (i : ℕ) (f : WorkerFiber) (pc : Pc)
      → f.pc ≡ pc
      → get_elem? p.fibs i ≡ some f
      → Inv min (take_turn p i f (worker_fn_ p.state p.jobs p.spawned pc))
  worker_fn_-Inv i f pc e at = turn-Inv inv i f (worker_fn_ p.state p.jobs p.spawned pc) at (
      subst (λ x. Fair p.state p.jobs p.spawned x (worker_fn_ p.state p.jobs p.spawned pc)) (sym e)
        (worker_fn_-Fair p.state p.jobs p.spawned pc))

  holding-Inv :
      (ready : Bool) (at i : ℕ) (f : WorkerFiber) (w : ℕ)
      → f.pc ≡ holding w
      → get_elem? p.fibs i ≡ some f
      → Inv min (move_fiber min max ready at p i f (holding w))
  unfolding move_fiber
  holding-Inv ready at i f w e here =
      choose (ltb p.spawned max && (not (is_nil p.jobs) || not ready))
    where
      q : Pool
      q = take_turn p i f (worker_fn_ p.state p.jobs p.spawned (holding w))

      kept : Inv min q
      kept = worker_fn_-Inv i f (holding w) e here

      slack : length q.fibs + total is_holding q.fibs < min + length q.taken
      slack = omega (
        arith,
        inv.grown,
        ap held e,
        length-set p.fibs i (record f { pc = running w }),
        total-set is_holding p.fibs i f (record f { pc = running w }) here,
        length-append p.taken [],
      )

      choose : (b : Bool) → Inv min (if b then insert_fiber at q else q)
      choose true = insert_fiber-Inv kept at slack
      choose false = kept

  sweeping-Inv :
      (ready : Bool) (at i : ℕ) (f : WorkerFiber)
      → f.pc ≡ sweeping
      → get_elem? p.fibs i ≡ some f
      → Inv min (move_fiber min max ready at p i f sweeping)
  unfolding move_fiber detach_all
  sweeping-Inv ready at i f e here = choose (is_nil p.jobs) (ltb min p.spawned) refl refl ready
    where
      q : Pool
      q = detach_all p

      swept : get_elem? q.fibs i ≡ some (detach f)
      swept = get_elem?-map detach p.fibs i f here

      kept : Inv min q
      kept = detach_all-Inv inv

      goes_on : Inv min (take_turn q i (detach f) (worker_fn_ p.state p.jobs p.spawned sweeping))
      goes_on = turn-Inv kept i (detach f) (worker_fn_ p.state p.jobs p.spawned sweeping) swept (
          subst
            (λ x. Fair p.state p.jobs p.spawned x (worker_fn_ p.state p.jobs p.spawned sweeping))
            (sym e) (worker_fn_-Fair p.state p.jobs p.spawned sweeping))

      less : (a b : ℕ) → ltb a b ≡ true → a < b
      less a b h = ground arith

      choose :
          (b c : Bool)
          → is_nil p.jobs ≡ b
          → ltb min p.spawned ≡ c
          → (r : Bool)
          → Inv min (
              if b && (c && r)
              then end_fiber q i (detach f)
              else take_turn q i (detach f) (worker_fn_ p.state p.jobs p.spawned sweeping))
      choose true true empty more true =
          end_fiber-Inv kept i (detach f) swept e (is_nil_eq p.jobs empty) (less min p.spawned more)
      choose true true empty more false = goes_on
      choose true false empty more r = goes_on
      choose false c empty more r = goes_on

  pub move_fiber-Inv :
      (ready : Bool) (at i : ℕ) (f : WorkerFiber) (pc : Pc)
      → f.pc ≡ pc
      → get_elem? p.fibs i ≡ some f
      → Inv min (move_fiber min max ready at p i f pc)
  unfolding move_fiber
  move_fiber-Inv ready at i f (holding w) e here = holding-Inv ready at i f w e here
  move_fiber-Inv ready at i f sweeping e here = sweeping-Inv ready at i f e here
  move_fiber-Inv ready at i f created e here = worker_fn_-Inv i f created e here
  move_fiber-Inv ready at i f top e here = worker_fn_-Inv i f top e here
  move_fiber-Inv ready at i f popping e here = worker_fn_-Inv i f popping e here
  move_fiber-Inv ready at i f blocked e here = worker_fn_-Inv i f blocked e here
  move_fiber-Inv ready at i f (running w) e here = worker_fn_-Inv i f (running w) e here
  move_fiber-Inv ready at i f done e here = worker_fn_-Inv i f done e here

  -- A waiter that is woken.
  pub woken-Inv :
      (i : ℕ) (f : WorkerFiber)
      → get_elem? p.fibs i ≡ some f
      → f.pc ≡ blocked
      → Inv min (record p { fibs = set p.fibs i (record f { pc = popping }) })
  woken-Inv i f at e = record {
    fifo = inv.fifo;
    counted = omega (arith, inv.counted, change is_active, ap live e);
    kept = λ o. omega (arith, inv.kept o, change is_there, ap there e);
    awake = λ o ne. omega (arith, inv.awake o ne, change is_idle, ap idle e, len);
    released = λ c. omega (arith, inv.released c, change waits_pc, ap waiter e);
    on_time = λ o. omega (arith, inv.on_time o, change is_late);
    marked = omega (arith, inv.marked, change mismarked, marks);
    grown = omega (arith, inv.grown, change is_holding, ap held e, len);
    stage = set-Stage p.fibs i f f' at ends p.master p.state inv.stage;
  }
    where
      f' : WorkerFiber
      f' = record f { pc = popping }

      len : length (set p.fibs i f') ≡ length p.fibs
      len = length-set p.fibs i f'

      change : (w : WorkerFiber → ℕ) → total w (set p.fibs i f') + w f ≡ total w p.fibs + w f'
      change w = total-set w p.fibs i f f' at

      same_there : there popping ≡ there f.pc
      same_there = ap there (sym e)

      marks : mismarked f' ≤ mismarked f
      marks = ground (arith, same_there)

      ends : unfinished f' ≤ unfinished f
      ends = ground (arith, same_there)
