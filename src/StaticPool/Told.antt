-- ===== src/StaticPool/Told.antt =====
-- A pool that has been told to end.
use boost_job.Common.{
  ℕ, ◌<◌, ◌≡◌, refl, sym, ap, subst, true, false, Option, none, some, get_elem?, if◌then◌else◌,
}
use boost_job.Queue.{QueueStatus, opened}
use boost_job.Rendezvous
use boost_job.Rendezvous.{Rendezvous}
use boost_job.StaticPool.{
  Pc, top, popping, blocked, running, done, Master, waits, closes, joins, returned, Pool,
  move_fiber, close_pool, join_step, receive, master_step, move_master, submit_job, accept,
  request_shutdown, Step, fiber_moves, woken, submitted, notified, master_moves, master_goes, Reach,
}
use boost_job.StaticPool.Invariant.{Stage}
use boost_job.StaticPool.Shutdown.{Reach-Inv}
use boost_job.StaticPool.Termination.{Steps, here, join-Steps, Reach-Steps, closed-returns}

-- Its master has gone past the rendezvous, or finds the flag there.
abbrev IsToldMaster : Master → Rendezvous → Type 0
IsToldMaster waits r = r.flag ≡ true
IsToldMaster _ r = Unit {0}

abbrev pub IsTold : Pool → Type 0
IsTold p = IsToldMaster p.master p.rdzv

abbrev pub IsReturned : Pool → Type 0
IsReturned p = p.master ≡ returned

-- What holds of a pool after all of its steps.
abbrev pub Stable : (Pool → Type 0) → Type 0
Stable F = (p q : Pool) → Step p q → F p → F q

waits_on : (r : Rendezvous) → r.flag ≡ true → (s : Rendezvous) × (Rendezvous.wait r ≡ some s)
unfolding Rendezvous.wait
waits_on r e =
    (record { flag = false }, ap (λ b. if b then some (record { flag = false }) else none) e)

join_step-IsToldMaster : (k : ℕ) (o : Option Pc) (r : Rendezvous) → IsToldMaster (join_step k o) r
unfolding join_step
join_step-IsToldMaster k none r = tt
join_step-IsToldMaster k (some top) r = tt
join_step-IsToldMaster k (some popping) r = tt
join_step-IsToldMaster k (some blocked) r = tt
join_step-IsToldMaster k (some (running f)) r = tt
join_step-IsToldMaster k (some done) r = tt

-- A master that has been told goes on.
move_master-IsTold : (m : Master) (p : Pool) → p.master ≡ m → IsTold p → IsTold (master_step m p)
unfolding master_step receive
move_master-IsTold waits p e h =
    let (s, found) = waits_on p.rdzv (subst (λ m. IsToldMaster m p.rdzv) e h) in
    subst (λ o. IsTold (receive p o)) (sym found) tt
move_master-IsTold closes p e h = tt
move_master-IsTold (joins k) p e h = join_step-IsToldMaster k (get_elem? p.fibers k) p.rdzv
move_master-IsTold returned p e h = h

move_master-IsReturned : (p : Pool) → IsReturned p → IsReturned (move_master p)
unfolding move_master master_step
move_master-IsReturned p e = subst (λ m. IsReturned (master_step m p)) (sym e) e

-- A submission leaves the master as it is.
submit_job-Stable :
    (F : Master → Rendezvous → Type 0) (st : QueueStatus) (f : ℕ) (w : Option ℕ) (p : Pool)
    → F p.master p.rdzv
    → F (accept st f w p).master (accept st f w p).rdzv
unfolding accept
submit_job-Stable F opened f w p h = h
submit_job-Stable F QueueStatus.closed f w p h = h

-- The notification of `shutdown` tells it.
notify-IsToldMaster : (m : Master) (r : Rendezvous) → IsToldMaster m (Rendezvous.notify r)
unfolding Rendezvous.notify
notify-IsToldMaster waits r = refl
notify-IsToldMaster closes r = tt
notify-IsToldMaster (joins k) r = tt
notify-IsToldMaster returned r = tt

pub IsTold-Stable : Stable IsTold
unfolding move_fiber move_master submit_job request_shutdown
IsTold-Stable p _ (fiber_moves i pc e) h = h
IsTold-Stable p _ (woken i e) h = h
IsTold-Stable p _ (submitted f w e) h = submit_job-Stable IsToldMaster p.state f w p h
IsTold-Stable p _ notified h = notify-IsToldMaster p.master p.rdzv
IsTold-Stable p _ master_moves h = move_master-IsTold p.master p refl h

pub IsReturned-Stable : Stable IsReturned
unfolding move_fiber submit_job request_shutdown
IsReturned-Stable p _ (fiber_moves i pc e) h = h
IsReturned-Stable p _ (woken i e) h = h
IsReturned-Stable p _ (submitted f w e) h = submit_job-Stable (λ m r. m ≡ returned) p.state f w p h
IsReturned-Stable p _ notified h = h
IsReturned-Stable p _ master_moves h = move_master-IsReturned p h

pub request_shutdown-IsTold : (p : Pool) → IsTold (request_shutdown p)
unfolding request_shutdown
request_shutdown-IsTold p = notify-IsToldMaster p.master p.rdzv

-- One step of its master.
go : (p : Pool) (m : Master) → p.master ≡ m → Steps p (master_step m p)
unfolding move_master
go p m e = subst (λ m. Steps p (master_step m p)) e (Steps.then here master_goes)

closes_ends :
    {n : ℕ} (p : Pool)
    → 0 < n
    → Reach n p
    → p.master ≡ closes
    → (q : Pool) × Steps p q × IsReturned q
unfolding master_step close_pool
closes_ends p positive r e =
    let ss = go p closes e in
    let (q, ts, back) = closed-returns positive (Reach-Steps r ss) refl in
    (q, join-Steps ss ts, back)

-- A pool of at least one fiber that has been told runs to its end.
told_ends :
    {n : ℕ} (p : Pool) (m : Master)
    → 0 < n
    → Reach n p
    → p.master ≡ m
    → IsTold p
    → (q : Pool) × Steps p q × IsReturned q
unfolding master_step receive
told_ends p waits positive r e h =
    let (s, found) = waits_on p.rdzv (subst (λ m. IsToldMaster m p.rdzv) e h) in
    let ss = subst (λ o. Steps p (receive p o)) found (go p waits e) in
    let (q, ts, back) =
      closes_ends (record p { rdzv = s; master = closes }) positive (Reach-Steps r ss) refl in
    (q, join-Steps ss ts, back)
told_ends p closes positive r e h = closes_ends p positive r e
told_ends p (joins k) positive r e h =
    closed-returns positive r
      (subst (λ m. Stage m p.state p.fibers) e (Reach-Inv positive r).stage).0
told_ends p returned positive r e h = (p, here, e)

pub IsTold-ends :
    {n : ℕ} (p : Pool) → 0 < n → Reach n p → IsTold p → (q : Pool) × Steps p q × IsReturned q
IsTold-ends p positive r h = told_ends p p.master positive r refl h
