-- ===== src/Machine/Shutdown.antt =====
-- The loop of `shutdown` comes to its end, and what it leaves.
use boost_job.Common.{
  ℕ, zero, suc, ◌+◌, ◌≤◌, ◌<◌, ◌≡◌, refl, sym, ap, subst, some, Option-cases, inl, inr, List, [],
  ◌∷◌, ◌++◌, length, length-set, get_elem?, get_elem?-lt-length, get_elem?-le-length,
  get_elem?-set_self, set, arith,
}
use boost_job.Queue.{QueueStatus}
use boost_job.StaticPool
use boost_job.StaticPool.{Pool, done, returned, request_shutdown}
use boost_job.StaticPool.Shutdown.{Reach-Inv, Reach-in_order, returned-done}
use boost_job.StaticPool.Termination.{Steps}
use boost_job.StaticPool.Told.{IsTold-ends}
use boost_job.Scheduler.{TopologyMap}
use boost_job.Machine.{
  Thread, Caller, elsewhere, ended, notifying, joining, Machine, with_pool, works, calls, notifies,
  joins, leaves, Reach, next, Run,
}
use boost_job.Machine.Invariant.{Inside, of_caller, Reach-Kept}

set_same : (ts : List Thread) (k : ℕ) (t : Thread) → get_elem? ts k ≡ some t → set ts k t ≡ ts
set_same [] k t e = refl
set_same (u ∷ ts) zero t e = ap (λ v. v ∷ ts) (unwrap e)
  where
    unwrap : some u ≡ some t → t ≡ u
    unwrap e = cc
set_same (u ∷ ts) (suc k) t e = ap (λ l. u ∷ l) (set_same ts k t e)

set-set : (ts : List Thread) (k : ℕ) (t u : Thread) → set (set ts k t) k u ≡ set ts k u
set-set [] k t u = refl
set-set (v ∷ ts) zero t u = refl
set-set (v ∷ ts) (suc k) t u = ap (λ l. v ∷ l) (set-set ts k t u)

join_runs : {k l m : Machine} → Run k l → Run l m → Run k m
join_runs r Run.here = r
join_runs r (Run.then s step) = Run.then (join_runs r s) step

Reach-Run :
    {n : ℕ} {topology : TopologyMap} {l m : Machine}
    → Reach n topology l
    → Run l m
    → Reach n topology m
Reach-Run r Run.here = r
Reach-Run r (Run.then s step) = next (Reach-Run r s) step

-- A run of one pool is one of the machine.
pool_runs :
    (m : Machine) (k : ℕ) (t : Thread) (q : Pool)
    → get_elem? m.threads k ≡ some t
    → Steps t.pool q
    → Run m (with_pool m k t q)
pool_runs m k t _ at Steps.here =
    subst (λ ts. Run m (record m { threads = ts })) (sym (set_same m.threads k t at)) Run.here
pool_runs m k t q at (Steps.then {q = r} ss s) =
    subst (λ ts. Run m (record m { threads = ts }))
      (set-set m.threads k (record t { pool = r }) (record t { pool = q }))
      (Run.then (pool_runs m k t r at ss) (
        works k (record t { pool = r }) q
          (get_elem?-set_self m.threads k (record t { pool = r })
            (get_elem?-lt-length m.threads k t at))
          s))

pub record ThreadEnded (p : Pool) : Type 0 where
  pub master : p.master ≡ returned
  pub closed : p.state ≡ QueueStatus.closed
  pub fibers : (i : ℕ) → i < length p.fibers → get_elem? p.fibers i ≡ some done
  pub in_order : p.offered ≡ p.taken ++ p.jobs

abbrev Ends : Machine → Type 0
Ends m = (l : Machine) × Run m l × (l.caller ≡ ended)

after-Run : {l m : Machine} → Run l m → Ends m → Ends l
after-Run r (m, s, e) = (m, join_runs r s, e)

some_fiber : {n : ℕ} {p : Pool} → 0 < n → StaticPool.Reach n p → 0 < length p.fibers
some_fiber positive r = omega (arith, (Reach-Inv positive r).size, positive)

module _ {n : ℕ} {topology : TopologyMap} (positive : 0 < n) where
  -- The join with the thread of an entry ends.
  join_ends :
      (m : Machine) (k : ℕ) (t : Thread)
      → Reach n topology m
      → m.caller ≡ joining k
      → get_elem? m.threads k ≡ some t
      → (q : Pool) × Run m (record (with_pool m k t q) { caller = notifying (suc k) })
  join_ends m k t r e at =
      let kept = Reach-Kept n topology m r in
      let told = (of_caller (joining k) e kept k t at).1 refl in
      let (q, ss, back) = IsTold-ends t.pool positive (kept.pools k t at) told in
      (
        q,
        Run.then (pool_runs m k t q at ss) (
            joins k (record t { pool = q }) e
              (get_elem?-set_self m.threads k (record t { pool = q })
                (get_elem?-lt-length m.threads k t at))
              back),
      )

  -- The loop from an entry on.
  loop-Ends :
      (d k : ℕ) (m : Machine)
      → Reach n topology m
      → m.caller ≡ notifying k
      → length m.threads ≤ k + d
      → Ends m
  loop-Ends zero k m r e h = elim (Option-cases (get_elem? m.threads k)) [
    | inl missing ↦ (record m { caller = ended }, Run.then Run.here (leaves k e missing), refl)
    | inr (t, at) ↦ absurd (omega (arith, get_elem?-lt-length m.threads k t at))
  ]
  loop-Ends (suc d) k m r e h = elim (Option-cases (get_elem? m.threads k)) [
    | inl missing ↦ (record m { caller = ended }, Run.then Run.here (leaves k e missing), refl)
    | inr (t, at) ↦
        let t' = record t { pool = request_shutdown t.pool } in
        let m' = record (with_pool m k t t'.pool) { caller = joining k } in
        let first = notifies k t e at in
        let (q, run) =
          join_ends m' k t' (next r first) refl
            (get_elem?-set_self m.threads k t' (get_elem?-lt-length m.threads k t at)) in
        let l = record (with_pool m' k t' q) { caller = notifying (suc k) } in
        after-Run (join_runs (Run.then Run.here first) run) (
          loop-Ends d (suc k) l (Reach-Run (next r first) run) refl (
            omega
              (arith, length-set m.threads k t', length-set m'.threads k (record t' { pool = q }))))
  ]

  caller-Ends : (c : Caller) (m : Machine) → m.caller ≡ c → Reach n topology m → Ends m
  caller-Ends elsewhere m e r = after-Run (Run.then Run.here (calls e)) (
      loop-Ends (length m.threads) 0 (record m { caller = notifying 0 }) (next r (calls e)) refl
        (omega arith))
  caller-Ends (notifying k) m e r = loop-Ends (length m.threads) k m r e (omega arith)
  caller-Ends (joining k) m e r = elim (Option-cases (get_elem? m.threads k)) [
    | inl missing ↦ absurd (
        omega (
          arith,
          get_elem?-le-length m.threads k missing,
          subst (λ c. Inside c (length m.threads)) e (Reach-Kept n topology m r).inside,
        ))
    | inr (t, at) ↦
        let (q, run) = join_ends m k t r e at in
        let l = record (with_pool m k t q) { caller = notifying (suc k) } in
        after-Run run (loop-Ends (length l.threads) (suc k) l (Reach-Run r run) refl (omega arith))
  ]
  caller-Ends ended m e r = (m, Run.here, e)

  -- For pools of at least one fiber and any topology map, from any state that the worker threads of
  -- a scheduler and the caller of `shutdown` reach, jobs being submitted at any time, there is a run
  -- after which `shutdown` has returned.
  pub shutdown_ends :
      (m : Machine) → Reach n topology m → (l : Machine) × Run m l × (l.caller ≡ ended)
  shutdown_ends m r = caller-Ends m.caller m refl r

  -- For pools of at least one fiber and any topology map, in any state that the worker threads of a
  -- scheduler and the caller of `shutdown` reach, when `shutdown` has returned: the master fiber of
  -- every worker thread has returned, its queue is closed, every fiber of its pool has ended, and
  -- the jobs that were accepted are those that its fibers have taken, in order, followed by those
  -- that are left.
  pub ended-ThreadEnded :
      (m : Machine) (k : ℕ) (t : Thread)
      → Reach n topology m
      → m.caller ≡ ended
      → get_elem? m.threads k ≡ some t
      → ThreadEnded t.pool
  ended-ThreadEnded m k t r e at =
      let kept = Reach-Kept n topology m r in
      let pool = kept.pools k t at in
      let back = of_caller ended e kept k t at in
      record {
        master = back;
        fibers = λ i inside. (returned-done positive pool back i inside).1;
        closed = (returned-done positive pool back 0 (some_fiber positive pool)).0;
        in_order = Reach-in_order positive pool;
      }
