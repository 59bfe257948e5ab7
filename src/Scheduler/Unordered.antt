-- ===== src/Scheduler/Unordered.antt =====
-- The processors of a scheduler without their order: topologies up to a reordering, and the
-- scheduler as a function of such a class.
use mathlib.Core.List.{Permᴰ}
use mathlib.Core.Quot
use mathlib.Core.Quot.{Quot}
use native.Mathlib.Nat.{ℕ_set}
use boost_job.Common.{◌≡◌, sym, ap, ◌∙◌, none, List}
use boost_job.Topology.{Topo}
use boost_job.Scheduler.{Outcome, returned, TopologyMap, Scheduler, Platform, scheduler}
use boost_job.Scheduler.Startup.{Ready, scheduler-built}
use boost_job.Scheduler.Order.{scheduler-Permᴰ}

pub record ReadyTopology : Type 0 where
  pub entries : List Topo
  pub ids : TopologyMap
  pub ready : Ready entries ids

abbrev pub Reordered : ReadyTopology → ReadyTopology → Type 0
Reordered p q = Permᴰ p.entries q.entries

abbrev pub Processors : Type 0
Processors = Quot Reordered

Scheduler-set : IsSet Scheduler
Scheduler-set = hlevel ℕ_set

scheduler_in : Scheduler → Outcome Scheduler → Scheduler
scheduler_in d (returned s) = s
scheduler_in d _ = d

module _ (sys : Platform) (accepts : (t : Topo) → sys.refuses t ≡ none) where
  built : ReadyTopology → Scheduler
  built p = (scheduler-built sys accepts p.entries p.ids p.ready).0

  built_lem : (p : ReadyTopology) → scheduler sys p.entries ≡ returned (built p)
  unfolding built
  built_lem p = (scheduler-built sys accepts p.entries p.ids p.ready).1

  built-Reordered : (p q : ReadyTopology) → Reordered p q → built p ≡ built q
  unfolding scheduler_in
  built-Reordered p q r = ap (scheduler_in (built p)) (
      sym (built_lem p)
      ∙ scheduler-Permᴰ sys accepts p.entries q.entries p.ids r p.ready
      ∙ built_lem q)

  pub scheduler_of : Processors → Scheduler
  scheduler_of = Quot.lift Scheduler-set built built-Reordered

  -- If the system refuses neither memory nor threads, then for a topology with at least one entry,
  -- whose processor ids are written, distinct and below 2 ^ 32 - 1, and for each other order of its
  -- entries, the constructor returns one and the same scheduler, which is a function of the class
  -- of all these orders.
  pub scheduler-Processors :
      (p : ReadyTopology) (us : List Topo)
      → Permᴰ p.entries us
      → (scheduler sys p.entries ≡ returned (scheduler_of (Quot.mk p)))
        × (scheduler sys us ≡ returned (scheduler_of (Quot.mk p)))
  unfolding scheduler_of
  scheduler-Processors p us r =
      (built_lem p, sym (scheduler-Permᴰ sys accepts p.entries us p.ids r p.ready) ∙ built_lem p)
