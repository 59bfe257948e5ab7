-- ===== src/StaticPool/Termination.antt =====
-- From any state with a closed queue there is a run to the end of `operator()`.
use boost_job.Common.{
  ℕ, zero, suc, ◌+◌, ◌≤◌, ◌<◌, ◌≡◌, refl, ap, subst, ◌∙◌, Option, none, some, length, get_elem?,
  get_elem?-lt-length, total, get_elem?-le-total, heavy_member, Option-cases, inl, inr, dec_lt,
  arith,
}
use boost_job.Queue.{QueueStatus}
use boost_job.StaticPool.{
  Pc, done, Master, waits, closes, joins, returned, Pool, move_fiber, join_step, master_step,
  move_master, OwnStep, fiber_goes, master_goes, own, fiber_moves, Reach, next,
}
use boost_job.StaticPool.Turns.{steps_left}
use boost_job.StaticPool.Invariant.{Stage}
use boost_job.StaticPool.Shutdown.{Reach-Inv, closed-steps_left}

-- A run of the pool's own fibers.
pub data Steps (p : Pool) : Pool → Type 0 where
  here : Steps p p
  then : {q r : Pool} → Steps p q → OwnStep q r → Steps p r

pub Reach-Steps : {n : ℕ} {p q : Pool} → Reach n p → Steps p q → Reach n q
Reach-Steps r here = r
Reach-Steps r (then ss s) = next (Reach-Steps r ss) (own s)

pub join-Steps : {p q r : Pool} → Steps p q → Steps q r → Steps p r
join-Steps ss here = ss
join-Steps ss (then ts t) = then (join-Steps ss ts) t

move_fiber-state : (p : Pool) (i : ℕ) (pc : Pc) → (move_fiber p i pc).state ≡ p.state
unfolding move_fiber
move_fiber-state p i pc = refl

module _ {n : ℕ} (positive : 0 < n) where
  -- The fibers end.
  fibers_end :
      (m : ℕ) (p : Pool)
      → Reach n p
      → p.state ≡ QueueStatus.closed
      → total steps_left p.fibers ≤ m
      → (q : Pool) × Steps p q × (q.state ≡ QueueStatus.closed) × (total steps_left q.fibers ≡ 0)
  fibers_end zero p r c h = (p, here, c, omega (arith, h))
  fibers_end (suc m) p r c h = elim (dec_lt 0 (total steps_left p.fibers)) [
    | no none_left ↦ (p, here, c, omega arith)
    | yes some_left ↦
        let (i, pc, at, left) = heavy_member steps_left p.fibers some_left in
        let (_, lower) =
          closed-steps_left positive r c i pc at (λ d. omega (arith, left, ap steps_left d)) in
        let (q, ss, c', e) =
          fibers_end m (move_fiber p i pc) (next r (fiber_moves i pc at))
            (move_fiber-state p i pc ∙ c) (omega (arith, lower, h)) in
        (q, join-Steps (then here (fiber_goes i pc at)) ss, c', e)
  ]

  move_master_joins :
      (p : Pool) (k : ℕ) (o : Option Pc)
      → p.master ≡ joins k
      → get_elem? p.fibers k ≡ o
      → move_master p ≡ record p { master = join_step k o }
  unfolding move_master master_step
  move_master_joins p k o e at =
      ap (λ m. master_step m p) e ∙ ap (λ o. record p { master = join_step k o }) at

  all_done :
      (p : Pool) (k : ℕ) (pc : Pc)
      → total steps_left p.fibers ≡ 0
      → get_elem? p.fibers k ≡ some pc
      → pc ≡ done
  all_done p k pc e at = ended pc (omega (arith, e, get_elem?-le-total steps_left p.fibers k pc at))
    where
      ended : (pc : Pc) → steps_left pc ≡ 0 → pc ≡ done
      ended pc h = ground arith

  step_to :
      (p : Pool) (k : ℕ) (o : Option Pc)
      → p.master ≡ joins k
      → get_elem? p.fibers k ≡ o
      → Steps p (record p { master = join_step k o })
  step_to p k o e at = subst (λ q. Steps p q) (move_master_joins p k o e at) (then here master_goes)

  -- The master joins them.
  master_returns :
      (m : ℕ) (p : Pool) (k : ℕ)
      → p.master ≡ joins k
      → total steps_left p.fibers ≡ 0
      → length p.fibers ≤ k + m
      → (q : Pool) × Steps p q × (q.master ≡ returned)
  unfolding join_step
  master_returns zero p k e ended h = elim (Option-cases (get_elem? p.fibers k)) [
    | inl missing ↦ (record p { master = returned }, step_to p k none e missing, refl)
    | inr found ↦ absurd (omega (arith, get_elem?-lt-length p.fibers k found.0 found.1))
  ]
  master_returns (suc m) p k e ended h = elim (Option-cases (get_elem? p.fibers k)) [
    | inl missing ↦ (record p { master = returned }, step_to p k none e missing, refl)
    | inr found ↦
        let at = found.1 ∙ ap some (all_done p k found.0 ended found.1) in
        let (q, ss, back) =
          master_returns m (record p { master = joins (suc k) }) (suc k) refl ended (omega arith) in
        (q, join-Steps (step_to p k (some done) e at) ss, back)
  ]

  from_Stage :
      (p : Pool) (m : Master)
      → p.master ≡ m
      → Stage m p.state p.fibers
      → p.state ≡ QueueStatus.closed
      → total steps_left p.fibers ≡ 0
      → (q : Pool) × Steps p q × (q.master ≡ returned)
  from_Stage p waits e s c ended = absurd (cc (s, c))
  from_Stage p closes e s c ended = absurd (cc (s, c))
  from_Stage p (joins k) e s c ended = master_returns (length p.fibers) p k e ended (omega arith)
  from_Stage p returned e s c ended = (p, here, e)

  -- From any state that a pool of at least one fiber reaches with the queue closed, there is a run of
  -- its fibers after which `operator()` has returned: the shutdown cannot be stuck.
  pub closed-returns :
      {p : Pool}
      → Reach n p
      → p.state ≡ QueueStatus.closed
      → (q : Pool) × Steps p q × (q.master ≡ returned)
  closed-returns {p} r c =
      let (q, ss, c', ended) = fibers_end (total steps_left p.fibers) p r c (omega arith) in
      let (end, ts, back) =
        from_Stage q q.master refl (Reach-Inv positive (Reach-Steps r ss)).stage c' ended in
      (end, join-Steps ss ts, back)
