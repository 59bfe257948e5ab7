-- ===== src/Machine/Invariant.antt =====
-- Every pool of a machine takes steps of its own, and the loop of `shutdown` has ended those before
-- its entry.
use boost_job.Common.{
  ℕ, zero, suc, ◌<◌, ◌≡◌, ◌≢◌, refl, sym, ap, subst, ◌∙◌, Option, none, some, List, [], ◌∷◌, map,
  length, length-set, get_elem?, get_elem?-lt-length, get_elem?-le-length, get_elem?-set_self,
  get_elem?-set_ne, set, ℕ_discrete, arith,
}
use boost_job.StaticPool
use boost_job.StaticPool.{Pool, launch, launched, woken, submitted, notified, own}
use boost_job.StaticPool.Told.{
  IsTold, IsReturned, Stable, IsTold-Stable, IsReturned-Stable, request_shutdown-IsTold,
}
use boost_job.Scheduler.{TopologyMap}
use boost_job.Machine.{
  Thread, Caller, elsewhere, ended, notifying, joining, Machine, started_machine, with_pool, Step,
  works, wakes, submits, calls, notifies, joins, leaves, Reach, started, next,
}

thread_in : Thread → Option Thread → Thread
thread_in d none = d
thread_in d (some t) = t

same_thread : {o : Option Thread} {t u : Thread} → o ≡ some t → o ≡ some u → t ≡ u
unfolding thread_in
same_thread {t = t} a b = ap (thread_in t) (sym a ∙ b)

-- What every pool of a list meets still holds after a step of one.
abbrev pub AllThreads : (ℕ → Pool → Type 0) → List Thread → Type 0
AllThreads F ts = (j : ℕ) (u : Thread) → get_elem? ts j ≡ some u → F j u.pool

AllThreads-set :
    (F G : ℕ → Pool → Type 0) (ts : List Thread) (k : ℕ) (t : Thread) (q : Pool)
    → get_elem? ts k ≡ some t
    → (F k t.pool → G k q)
    → ((j : ℕ) (p : Pool) → k ≢ j → F j p → G j p)
    → AllThreads F ts
    → AllThreads G (set ts k (record t { pool = q }))
AllThreads-set F G ts k t q at step keep h j u e = elim (ℕ_discrete k j) [
  | no ne ↦ keep j u.pool ne (h j u (sym (get_elem?-set_ne ts k j (record t { pool = q }) ne) ∙ e))
  | yes same ↦
      let here = get_elem?-set_self ts k (record t { pool = q }) (get_elem?-lt-length ts k t at) in
      let new =
        same_thread here
          (subst (λ j. get_elem? (set ts k (record t { pool = q })) j ≡ some u) (sym same) e) in
      subst (λ j. G j u.pool) same (subst (λ u. G k u.pool) new (step (h k t at)))
]

-- What the loop has done, for each of the threads.
abbrev pub Done : Caller → ℕ → Pool → Type 0
Done elsewhere j p = Unit {0}
Done (notifying k) j p = (j < k → IsReturned p)
Done (joining k) j p = (j < k → IsReturned p) × (j ≡ k → IsTold p)
Done ended j p = IsReturned p

Done-Stable : (c : Caller) (j : ℕ) → Stable (Done c j)
Done-Stable elsewhere j p q s h = tt
Done-Stable (notifying k) j p q s h = λ lt. IsReturned-Stable p q s (h lt)
Done-Stable (joining k) j p q s (h, told) =
    (λ lt. IsReturned-Stable p q s (h lt), λ e. IsTold-Stable p q s (told e))
Done-Stable ended j p q s h = IsReturned-Stable p q s h

-- A join is with one of the threads.
abbrev pub Inside : Caller → ℕ → Type 0
Inside (joining k) l = k < l
Inside _ l = Unit {0}

pub record Kept (n : ℕ) (m : Machine) : Type 0 where
  pub pools : AllThreads (λ j p. StaticPool.Reach n p) m.threads
  pub loop : AllThreads (Done m.caller) m.threads
  pub inside : Inside m.caller (length m.threads)

moved :
    (n : ℕ) (m : Machine) (k : ℕ) (t : Thread) (q : Pool)
    → Kept n m
    → get_elem? m.threads k ≡ some t
    → StaticPool.Step t.pool q
    → Kept n (with_pool m k t q)
moved n m k t q h at step = record {
  pools =
      AllThreads-set (λ j p. StaticPool.Reach n p) (λ j p. StaticPool.Reach n p) m.threads k t q at
        (λ r. StaticPool.next r step) (λ j p ne r. r) h.pools;
  loop =
      AllThreads-set (Done m.caller) (Done m.caller) m.threads k t q at
        (Done-Stable m.caller k t.pool q step) (λ j p ne d. d) h.loop;
  inside = subst (Inside m.caller) (sym (length-set m.threads k (record t { pool = q }))) h.inside;
}

pub of_caller :
    {n : ℕ} {m : Machine} (c : Caller) → m.caller ≡ c → Kept n m → AllThreads (Done c) m.threads
of_caller {m = m} c e h = subst (λ c. AllThreads (Done c) m.threads) e h.loop

Step-Kept : (n : ℕ) (m l : Machine) → Kept n m → Step m l → Kept n l
Step-Kept n m _ h (works k t q at step) = moved n m k t q h at (own step)
Step-Kept n m _ h (wakes k i t at e) = moved n m k t _ h at (woken i e)
Step-Kept n m _ h (submits k f w t at e) = moved n m k t _ h at (submitted f w e)
Step-Kept n m _ h (calls e) = record {
  pools = h.pools;
  loop = λ j u at lt. absurd (omega (arith, lt));
  inside = tt;
}
Step-Kept n m _ h (notifies k t e at) = record {
  pools = (moved n m k t _ h at notified).pools;
  loop =
      AllThreads-set (Done (notifying k)) (Done (joining k)) m.threads k t _ at
        (λ d. (λ lt. absurd (omega (arith, lt)), λ same. request_shutdown-IsTold t.pool))
        (λ j p ne d. (d, λ same. absurd (ne (sym same)))) (of_caller (notifying k) e h);
  inside = omega (
    arith,
    get_elem?-lt-length m.threads k t at,
    length-set m.threads k (record t { pool = StaticPool.request_shutdown t.pool }),
  );
}
Step-Kept n m _ h (joins k t e at back) = record {
  pools = h.pools;
  loop = λ j u found lt. elim (ℕ_discrete j k) [
    | yes same ↦
        subst (λ v. IsReturned v.pool)
          (same_thread at (subst (λ i. get_elem? m.threads i ≡ some u) same found)) back
    | no other ↦ (of_caller (joining k) e h j u found).0 (omega arith)
  ];
  inside = tt;
}
Step-Kept n m _ h (leaves k e none_left) = record {
  pools = h.pools;
  loop = λ j u found. of_caller (notifying k) e h j u found (
      omega (
        arith,
        get_elem?-lt-length m.threads j u found,
        get_elem?-le-length m.threads k none_left,
      ));
  inside = tt;
}

started-Kept : (n : ℕ) (topology : TopologyMap) → Kept n (started_machine n topology)
unfolding started_machine
started-Kept n topology = record {
  pools = launched_pools topology;
  loop = λ j u e. tt;
  inside = tt;
}
  where
    launched_pools :
        (topology : TopologyMap)
        → AllThreads
            (λ j p. StaticPool.Reach n p)
            (map (λ e. record { processor = e.0; pool = launch n }) topology)
    launched_pools [] j u e = absurd cc
    launched_pools (x ∷ xs) zero u e =
        subst (λ v. StaticPool.Reach n v.pool) (same_thread refl e) launched
    launched_pools (x ∷ xs) (suc j) u e = launched_pools xs j u e

pub Reach-Kept : (n : ℕ) (topology : TopologyMap) (m : Machine) → Reach n topology m → Kept n m
Reach-Kept n topology _ started = started-Kept n topology
Reach-Kept n topology _ (next {l = l} {m = m} r s) = Step-Kept n l m (Reach-Kept n topology l r) s
