-- ===== src/StaticPool/Moves.antt =====
-- Every step keeps the invariant.
use boost_job.Common.{
  ℕ, suc, ◌≤◌, ◌<◌, ◌≡◌, refl, sym, ap, ◌∙◌, ◌≢◌, inl, inr, Option, none, some, List, [], ◌∷◌, ◌++◌,
  length, length-set, get_elem?, set, get_elem?-set_self, get_elem?-set_ne, get_elem?-lt-length,
  get_elem?-le-length, total-le_length, total, total-set, append_assoc, ℕ_discrete, arith,
}
use boost_job.Queue.{QueueStatus, opened}
use boost_job.StaticPool.{
  Pc, top, popping, blocked, running, done, Turn, Master, waits, closes, joins, returned, Pool,
  fiber_step, move_fiber, join_step, wake_one, accept, submit_job, is_blocked, Wakes,
}
use boost_job.StaticPool.Turns.{is_done, Fair, fiber_step-Fair, DoneBelow}
use boost_job.StaticPool.Invariant.{Stage, Inv}

-- Setting a fiber keeps the done ones, if a done one stays so.
module _ (fs : List Pc) (i : ℕ) (pc pc' : Pc) (e : get_elem? fs i ≡ some pc) where
  get_elem?-set_at : (j : ℕ) → i ≡ j → j < length fs → get_elem? (set fs i pc') j ≡ some pc'
  get_elem?-set_at j same small =
      ap (get_elem? (set fs i pc')) (sym same) ∙ get_elem?-set_self fs i pc' (omega (arith, same))

  keeps_done :
      (pc ≡ done → pc' ≡ done)
      → (j : ℕ) → get_elem? fs j ≡ some done
      → get_elem? (set fs i pc') j ≡ some done
  keeps_done stays j d = elim (ℕ_discrete i j) [
    | yes same ↦
        get_elem?-set_at j same (get_elem?-lt-length fs j done d)
        ∙ ap some (stays (ap from (sym e ∙ ap (get_elem? fs) same ∙ d)))
    | no other ↦ get_elem?-set_ne fs i j pc' other ∙ d
  ]
    where
      from : Option Pc → Pc
      from none = pc
      from (some x) = x

  pub keeps_Stage :
      (pc ≡ done → pc' ≡ done)
      → (m : Master) (st : QueueStatus) → Stage m st fs
      → Stage m st (set fs i pc')
  keeps_Stage stays waits st s = s
  keeps_Stage stays closes st s = s
  keeps_Stage stays (joins k) st s = (s.0, λ j h. keeps_done stays j (s.1 j h))
  keeps_Stage stays returned st s =
      (s.0, λ j h. keeps_done stays j (s.1 j (omega (arith, length-set fs i pc'))))

nonempty : (xs ys : List ℕ) → ys ≢ [] → xs ++ ys ≢ []
nonempty [] ys ne e = ne e
nonempty (x ∷ xs) ys ne e = absurd cc

module _ {n : ℕ} {p : Pool} (inv : Inv n p) where
  turn-Inv :
      (i : ℕ) (pc : Pc) (t : Turn)
      → get_elem? p.fibers i ≡ some pc
      → Fair p.state p.jobs pc t
      → Inv n (record p { jobs = t.left; fibers = set p.fibers i t.pc; taken = p.taken ++ t.took })
  turn-Inv i pc t e f = record {
    size = length-set p.fibers i t.pc ∙ inv.size;
    fifo = inv.fifo ∙ ap (λ js. p.taken ++ js) f.splits ∙ sym (append_assoc p.taken t.took t.left);
    awake = λ ne. elim f.blocks [
      | inl le ↦ omega (
        arith,
        total-set is_blocked p.fibers i pc t.pc e,
        inv.awake (λ empty. nonempty t.took t.left ne (sym f.splits ∙ empty)),
        le,
      )
      | inr b ↦ absurd (ne b.1)
    ];
    released = λ c.
        omega (arith, total-set is_blocked p.fibers i pc t.pc e, inv.released c, f.closed_wakes c);
    at_work = λ o.
        omega (arith, total-set is_done p.fibers i pc t.pc e, inv.at_work o, f.opened_goes_on o);
    stage = keeps_Stage p.fibers i pc t.pc e f.stays_done p.master p.state inv.stage;
  }

  pub move_fiber-Inv :
      (i : ℕ) (pc : Pc) → get_elem? p.fibers i ≡ some pc → Inv n (move_fiber p i pc)
  unfolding move_fiber
  move_fiber-Inv i pc e =
      turn-Inv i pc (fiber_step p.state p.jobs pc) e (fiber_step-Fair p.state p.jobs pc)

  pub woken-Inv :
      (i : ℕ)
      → get_elem? p.fibers i ≡ some blocked
      → Inv n (record p { fibers = set p.fibers i popping })
  woken-Inv i e = record {
    size = length-set p.fibers i popping ∙ inv.size;
    fifo = inv.fifo;
    awake = λ ne. omega (arith, total-set is_blocked p.fibers i blocked popping e, inv.awake ne);
    released =
        λ c. omega (arith, total-set is_blocked p.fibers i blocked popping e, inv.released c);
    at_work = λ o. omega (arith, total-set is_done p.fibers i blocked popping e, inv.at_work o);
    stage = keeps_Stage p.fibers i blocked popping e (λ d. absurd cc) p.master p.state inv.stage;
  }

  module _ (f : ℕ) (positive : 0 < n) where
    accept-Inv :
        (st : QueueStatus) (w : Option ℕ)
        → p.state ≡ st
        → Wakes p.fibers w
        → Inv n (accept st f w p)
    unfolding accept wake_one
    accept-Inv QueueStatus.closed w e h = inv
    accept-Inv opened none e h = record {
      size = inv.size;
      fifo = ap (λ js. js ++ f ∷ []) inv.fifo ∙ append_assoc p.taken p.jobs (f ∷ []);
      awake = λ ne. omega (arith, h, positive);
      released = inv.released;
      at_work = inv.at_work;
      stage = inv.stage;
    }
    accept-Inv opened (some i) e h = record {
      size = length-set p.fibers i popping ∙ inv.size;
      fifo = ap (λ js. js ++ f ∷ []) inv.fifo ∙ append_assoc p.taken p.jobs (f ∷ []);
      awake = λ ne.
          omega (arith, total-set is_blocked p.fibers i blocked popping h, few p.fibers inv.size);
      released =
          λ c. omega (arith, total-set is_blocked p.fibers i blocked popping h, inv.released c);
      at_work = λ o. omega (arith, total-set is_done p.fibers i blocked popping h, inv.at_work o);
      stage = keeps_Stage p.fibers i blocked popping h (λ d. absurd cc) p.master p.state inv.stage;
    }
      where
        few : (fs : List Pc) → length fs ≡ n → total is_blocked fs ≤ n
        few fs size = omega (arith, total-le_length is_blocked at_most_one fs, size)
          where
            at_most_one : (pc : Pc) → is_blocked pc ≤ 1
            at_most_one pc = ground arith

    pub submit_job-Inv : (w : Option ℕ) → Wakes p.fibers w → Inv n (submit_job p f w)
    unfolding submit_job
    submit_job-Inv w h = accept-Inv p.state w refl h

-- The master fiber.
below_done :
    (fs : List Pc) (k : ℕ) → DoneBelow k fs → get_elem? fs k ≡ some done → DoneBelow (suc k) fs
below_done fs k below e j h = elim (ℕ_discrete j k) [
  | yes same ↦ ap (get_elem? fs) same ∙ e
  | no other ↦ below j (omega arith)
]

pub join-Stage :
    (fs : List Pc) (k : ℕ) (o : Option Pc)
    → get_elem? fs k ≡ o
    → DoneBelow k fs
    → Stage (join_step k o) QueueStatus.closed fs
unfolding join_step
join-Stage fs k none e below = (refl, λ j h. below j (omega (arith, get_elem?-le-length fs k e, h)))
join-Stage fs k (some done) e below = (refl, below_done fs k below e)
join-Stage fs k (some top) e below = (refl, below)
join-Stage fs k (some popping) e below = (refl, below)
join-Stage fs k (some blocked) e below = (refl, below)
join-Stage fs k (some (running f)) e below = (refl, below)
