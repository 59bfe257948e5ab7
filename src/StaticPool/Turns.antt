-- ===== src/StaticPool/Turns.antt =====
-- What one step of a worker fiber changes, and what setting one fiber changes in the list of all.
use boost_job.Common.{
  ℕ, suc, ◌≤◌, ◌<◌, ◌≡◌, refl, sym, ap, ◌≢◌, ◌⊎◌, inl, inr, some, List, [], ◌∷◌, ◌++◌, map, length,
  get_elem?, total, arith,
}
use boost_job.Queue.{QueueStatus, opened}
use boost_job.StaticPool.{
  Pc, top, popping, blocked, running, done, Turn, fiber_step, wake, is_blocked,
}

abbrev pub is_done : Pc → ℕ
is_done done = 1
is_done _ = 0

-- How many steps a fiber has left once the queue is closed and empty, and one job more if it
-- stands at the pop.
abbrev pub steps_left : Pc → ℕ
steps_left done = 0
steps_left top = 1
steps_left (running f) = 2
steps_left popping = 3
steps_left blocked = 4

pub record Fair (st : QueueStatus) (js : List ℕ) (pc : Pc) (t : Turn) : Type 0 where
  pub splits : js ≡ t.took ++ t.left
  pub blocks : (is_blocked t.pc ≤ is_blocked pc) ⊎ ((st ≡ opened) × (t.left ≡ []))
  pub opened_goes_on : st ≡ opened → is_done t.pc ≤ is_done pc
  pub stays_done : pc ≡ done → t.pc ≡ done
  pub closed_wakes : st ≡ QueueStatus.closed → is_blocked t.pc ≤ is_blocked pc

not_closed : {A : Type 0} → opened ≡ QueueStatus.closed → A
not_closed e = absurd cc

fair :
    {st : QueueStatus} {js : List ℕ} {pc : Pc} {t : Turn}
    → js ≡ t.took ++ t.left
    → is_blocked t.pc ≤ is_blocked pc
    → (st ≡ opened → is_done t.pc ≤ is_done pc)
    → (pc ≡ done → t.pc ≡ done)
    → Fair st js pc t
fair e b o d = record {
  splits = e;
  blocks = inl b;
  opened_goes_on = o;
  stays_done = d;
  closed_wakes = λ _. b;
}

pub fiber_step-Fair :
    (st : QueueStatus) (js : List ℕ) (pc : Pc) → Fair st js pc (fiber_step st js pc)
unfolding fiber_step
fiber_step-Fair opened js top = fair refl (omega arith) (λ _. omega arith) (λ e. absurd cc)
fiber_step-Fair QueueStatus.closed js top =
    fair refl (omega arith) (λ e. not_closed (sym e)) (λ e. refl)
fiber_step-Fair opened [] popping = record {
  splits = refl;
  blocks = inr (refl, refl);
  opened_goes_on = λ _. omega arith;
  stays_done = λ e. absurd cc;
  closed_wakes = not_closed;
}
fiber_step-Fair QueueStatus.closed [] popping =
    fair refl (omega arith) (λ _. omega arith) (λ e. absurd cc)
fiber_step-Fair opened (f ∷ js) popping =
    fair refl (omega arith) (λ _. omega arith) (λ e. absurd cc)
fiber_step-Fair QueueStatus.closed (f ∷ js) popping =
    fair refl (omega arith) (λ _. omega arith) (λ e. absurd cc)
fiber_step-Fair opened js (running f) = fair refl (omega arith) (λ _. omega arith) (λ e. absurd cc)
fiber_step-Fair QueueStatus.closed js (running f) =
    fair refl (omega arith) (λ _. omega arith) (λ e. absurd cc)
fiber_step-Fair opened js blocked = fair refl (omega arith) (λ _. omega arith) (λ e. e)
fiber_step-Fair QueueStatus.closed js blocked = fair refl (omega arith) (λ _. omega arith) (λ e. e)
fiber_step-Fair opened js done = fair refl (omega arith) (λ _. omega arith) (λ e. e)
fiber_step-Fair QueueStatus.closed js done = fair refl (omega arith) (λ _. omega arith) (λ e. e)

-- With the queue closed, a step of a fiber that is neither done nor blocked brings it nearer.
pub closed_step_lem :
    (js : List ℕ) (pc : Pc)
    → pc ≢ done
    → is_blocked pc ≡ 0
    → steps_left (fiber_step QueueStatus.closed js pc).pc < steps_left pc
unfolding fiber_step
closed_step_lem js top ne b = omega arith
closed_step_lem [] popping ne b = omega arith
closed_step_lem (f ∷ js) popping ne b = omega arith
closed_step_lem js (running f) ne b = omega arith
closed_step_lem js blocked ne b = absurd (omega arith)
closed_step_lem js done ne b = absurd (ne refl)

-- `notify_all` leaves no fiber blocked and no fiber undone.
pub wake-total : (fs : List Pc) → total is_blocked (map wake fs) ≡ 0
unfolding total
wake-total [] = refl
wake-total (top ∷ fs) = omega (arith, wake-total fs)
wake-total (popping ∷ fs) = omega (arith, wake-total fs)
wake-total (blocked ∷ fs) = omega (arith, wake-total fs)
wake-total (running f ∷ fs) = omega (arith, wake-total fs)
wake-total (done ∷ fs) = omega (arith, wake-total fs)

pub wake-length : (fs : List Pc) → length (map wake fs) ≡ length fs
wake-length [] = refl
wake-length (pc ∷ fs) = ap suc (wake-length fs)

-- All fibers below `k` are done.
abbrev pub DoneBelow : ℕ → List Pc → Type 0
DoneBelow k fs = (j : ℕ) → j < k → get_elem? fs j ≡ some done

abbrev pub AllDone : List Pc → Type 0
AllDone fs = (j : ℕ) → j < length fs → get_elem? fs j ≡ some done
