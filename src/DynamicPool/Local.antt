-- ===== src/DynamicPool/Local.antt =====
-- A step of one fiber, and what it keeps of the invariant.
use boost_job.Common.{
  ℕ, ◌+◌, ◌≤◌, ◌<◌, ◌≡◌, refl, sym, ap, ◌∙◌, ◌≢◌, ◌⊎◌, inl, inr, some, List, [], ◌∷◌, ◌++◌,
  append_assoc, length, length-append, length-set, get_elem?, set, total, total-set,
  total_below-set_le, arith,
}
use boost_job.Queue.{QueueStatus, opened}
use boost_job.StaticPool.{Master, waits, closes, joins}
use boost_job.DynamicPool.{
  Pc, created, top, popping, blocked, holding, running, sweeping, done, WorkerFiber, Pool, Turn,
  worker_fn_, waiter,
}
use boost_job.DynamicPool.Weights.{
  waits_pc, live, is_active, there, is_there, idle, is_idle, held, is_holding, is_late, mismarked,
  unfinished,
}
use boost_job.DynamicPool.Invariant.{Stage, Inv}

-- A fiber `f` becomes `f'`, takes `took` from the queue, and the counter becomes `count`.
pub record Local (min : ℕ) (p : Pool) (f f' : WorkerFiber) (left took : List ℕ) (count : ℕ)
    : Type 0 where
  pub splits : p.jobs ≡ took ++ left
  pub counts : p.spawned + is_active f' ≡ count + is_active f
  pub keeps : p.state ≡ opened → (is_there f ≤ is_there f') ⊎ (min < p.spawned)
  pub drops : is_there f' ≤ is_there f
  pub idles : p.state ≡ opened → (is_idle f' ≤ is_idle f) ⊎ (left ≡ [])
  pub wakes : p.state ≡ QueueStatus.closed → waits_pc f' ≤ waits_pc f
  pub late : is_late f' ≡ is_late f
  pub marks : mismarked f' ≤ mismarked f
  pub holds : is_holding f' ≤ is_holding f + length took
  pub ends : unfinished f' ≤ unfinished f

active-le-there : (f : WorkerFiber) → is_active f ≤ is_there f
active-le-there f = places f.pc
  where
    places : (pc : Pc) → live pc ≤ there pc
    places pc = ground arith

total_le :
    (v w : WorkerFiber → ℕ)
    → ((f : WorkerFiber) → v f ≤ w f)
    → (fs : List WorkerFiber) → total v fs ≤ total w fs
unfolding total
total_le v w h [] = omega arith
total_le v w h (f ∷ fs) = omega (arith, h f, total_le v w h fs)

nonempty : (xs ys : List ℕ) → ys ≢ [] → xs ++ ys ≢ []
nonempty [] ys ne e = ne e
nonempty (x ∷ xs) ys ne e = absurd cc

pub set-Stage :
    (fs : List WorkerFiber) (i : ℕ) (f f' : WorkerFiber)
    → get_elem? fs i ≡ some f
    → unfinished f' ≤ unfinished f
    → (m : Master) (st : QueueStatus) → Stage m st fs
    → Stage m st (set fs i f')
set-Stage fs i f f' at h waits st s = s
set-Stage fs i f f' at h closes st s = s
set-Stage fs i f f' at h (joins k) st s =
    (s.0, omega (arith, s.1, total_below-set_le unfinished k fs i f f' at h))
set-Stage fs i f f' at h Master.returned st s =
    (s.0, omega (arith, s.1, total-set unfinished fs i f f' at))

module _ {min : ℕ} {p : Pool} (inv : Inv min p) (i : ℕ) (f f' : WorkerFiber)
    (at : get_elem? p.fibs i ≡ some f) where
  pub local-Inv :
      (left took : List ℕ) (count : ℕ)
      → Local min p f f' left took count
      → Inv min (record p {
        jobs = left;
        fibs = set p.fibs i f';
        spawned = count;
        taken = p.taken ++ took;
      })
  local-Inv left took count l = record {
    fifo = inv.fifo ∙ ap (λ js. p.taken ++ js) l.splits ∙ sym (append_assoc p.taken took left);
    counted = omega (arith, inv.counted, l.counts, total-set is_active p.fibs i f f' at);
    kept = λ o. elim (l.keeps o) [
      | inl h ↦ omega (arith, inv.kept o, h, total-set is_there p.fibs i f f' at)
      | inr h ↦ omega (
        arith,
        h,
        inv.counted,
        total_le is_active is_there active-le-there p.fibs,
        one_there,
        l.drops,
        total-set is_there p.fibs i f f' at,
      )
    ];
    awake = λ o ne. elim (l.idles o) [
      | inl h ↦ omega (
        arith,
        total-set is_idle p.fibs i f f' at,
        h,
        length-set p.fibs i f',
        inv.awake o (λ e. nonempty took left ne (sym l.splits ∙ e)),
      )
      | inr e ↦ absurd (ne e)
    ];
    released = λ c. omega (arith, inv.released c, l.wakes c, total-set waits_pc p.fibs i f f' at);
    on_time = λ o. omega (arith, inv.on_time o, l.late, total-set is_late p.fibs i f f' at);
    marked = omega (arith, inv.marked, l.marks, total-set mismarked p.fibs i f f' at);
    grown = omega (
      arith,
      inv.grown,
      l.holds,
      total-set is_holding p.fibs i f f' at,
      length-set p.fibs i f',
      length-append p.taken took,
    );
    stage = set-Stage p.fibs i f f' at l.ends p.master p.state inv.stage;
  }
    where
      one_there : is_there f ≤ 1
      one_there = places f.pc
        where
          places : (pc : Pc) → there pc ≤ 1
          places pc = ground arith

-- What `worker_fn_` does, by the place of the fiber.
pub record Fair (st : QueueStatus) (js : List ℕ) (n : ℕ) (pc : Pc) (t : Turn) : Type 0 where
  pub splits : js ≡ t.took ++ t.left
  pub counts : live pc ≤ n → n + live t.pc ≡ t.count + live pc
  pub stays : st ≡ opened → there pc ≤ there t.pc
  pub drops : there t.pc ≤ there pc
  pub idles : st ≡ opened → (idle t.pc ≤ idle pc) ⊎ (t.left ≡ [])
  pub wakes : st ≡ QueueStatus.closed → waiter t.pc ≤ waiter pc
  pub holds : held t.pc ≤ held pc + length t.took

not_closed : {A : Type 0} → opened ≡ QueueStatus.closed → A
not_closed e = absurd cc

-- A place that leaves the queue alone, or takes one job.
plain :
    {st : QueueStatus} {js : List ℕ} {n : ℕ} {pc : Pc} {t : Turn}
    → js ≡ t.took ++ t.left
    → (live pc ≤ n → n + live t.pc ≡ t.count + live pc)
    → (st ≡ opened → there pc ≤ there t.pc)
    → there t.pc ≤ there pc
    → (st ≡ opened → idle t.pc ≤ idle pc)
    → waiter t.pc ≤ waiter pc
    → held t.pc ≤ held pc + length t.took
    → Fair st js n pc t
plain e c s d i w h = record {
  splits = e;
  counts = c;
  stays = s;
  drops = d;
  idles = λ o. inl (i o);
  wakes = λ _. w;
  holds = h;
}

pub worker_fn_-Fair :
    (st : QueueStatus) (js : List ℕ) (n : ℕ) (pc : Pc) → Fair st js n pc (worker_fn_ st js n pc)
unfolding worker_fn_
worker_fn_-Fair st js n created =
    plain refl (λ h. omega arith) (λ _. omega arith) (omega arith) (λ _. omega arith) (omega arith)
      (omega arith)
worker_fn_-Fair opened js n top =
    plain refl (λ h. omega arith) (λ _. omega arith) (omega arith) (λ _. omega arith) (omega arith)
      (omega arith)
worker_fn_-Fair QueueStatus.closed js n top =
    plain refl (λ h. omega arith) (λ e. not_closed (sym e)) (omega arith) (λ e. not_closed (sym e))
      (omega arith) (omega arith)
worker_fn_-Fair opened (f ∷ js) n popping =
    plain refl (λ h. omega arith) (λ _. omega arith) (omega arith) (λ _. omega arith) (omega arith)
      (omega arith)
worker_fn_-Fair QueueStatus.closed (f ∷ js) n popping =
    plain refl (λ h. omega arith) (λ _. omega arith) (omega arith) (λ _. omega arith) (omega arith)
      (omega arith)
worker_fn_-Fair opened [] n popping = record {
  splits = refl;
  counts = λ h. omega arith;
  stays = λ _. omega arith;
  drops = omega arith;
  idles = λ _. inr refl;
  wakes = not_closed;
  holds = omega arith;
}
worker_fn_-Fair QueueStatus.closed [] n popping =
    plain refl (λ h. omega arith) (λ _. omega arith) (omega arith) (λ _. omega arith) (omega arith)
      (omega arith)
worker_fn_-Fair st js n blocked =
    plain refl (λ h. omega arith) (λ _. omega arith) (omega arith) (λ _. omega arith) (omega arith)
      (omega arith)
worker_fn_-Fair st js n (holding f) =
    plain refl (λ h. omega arith) (λ _. omega arith) (omega arith) (λ _. omega arith) (omega arith)
      (omega arith)
worker_fn_-Fair st js n (running f) =
    plain refl (λ h. omega arith) (λ _. omega arith) (omega arith) (λ _. omega arith) (omega arith)
      (omega arith)
worker_fn_-Fair st js n sweeping =
    plain refl (λ h. omega arith) (λ _. omega arith) (omega arith) (λ _. omega arith) (omega arith)
      (omega arith)
worker_fn_-Fair st js n done =
    plain refl (λ h. omega arith) (λ _. omega arith) (omega arith) (λ _. omega arith) (omega arith)
      (omega arith)
