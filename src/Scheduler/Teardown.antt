-- ===== src/Scheduler/Teardown.antt =====
-- `scheduler::shutdown` from the state that the constructor leaves.
use boost_job.Common.{ℕ, ◌≡◌, refl, sym, ap, ◌∙◌, Option, none, some, List, get_elem?}
use boost_job.Topology.{Topo}
use boost_job.Scheduler.{
  returned, WorkerThread, Slots, TopologyMap, Scheduler, Platform, create_topology_map, lookup,
  scheduler, shutdown_all, shutdown,
}
use boost_job.Scheduler.Topologies.{create_topology_map-Distinct, lookup-create_topology_map}
use boost_job.Scheduler.Slots.{Ended, last_failure, shutdown_all-Ended, started}
use boost_job.Scheduler.Startup.{Ready, scheduler-built}

-- Where the topology has an entry, its thread has been told to end.
abbrev pub AfterShutdown : Option Topo → Option ℕ → Option (Option WorkerThread) → Type 0
AfterShutdown none e o = Unit {0}
AfterShutdown (some t) e o = Ended t e o

module _ (sys : Platform) (accepts : (t : Topo) → sys.refuses t ≡ none) where
  -- After the constructor has run on a topology with distinct ids below 2 ^ 32 - 1, `shutdown` tells
  -- the thread of every entry to end and joins it unless that join fails, also when an earlier join has failed; what it throws
  -- at the end is the exception of the last join that failed, in the order of the ids.
  pub shutdown-Ended :
      (ts : List Topo) (xs : TopologyMap)
      → Ready ts xs
      → (s : Scheduler) × (ws : Slots) × (scheduler sys ts ≡ returned s)
        × (shutdown sys s ≡ returned (ws, last_failure sys (create_topology_map xs) none))
        × ((i : ℕ) → AfterShutdown (lookup i xs) (sys.join_fails i) (get_elem? ws i))
  unfolding shutdown
  shutdown-Ended ts xs ready =
      let (s, run, serves, at) = scheduler-built sys accepts ts xs ready in
      let (ws, down, ends, _) =
        shutdown_all-Ended sys (create_topology_map xs) s.worker_threads none
          (create_topology_map-Distinct xs)
          (λ i t e. (started t, at i t (sym (in_map i) ∙ e), refl, refl)) in
      (
        s,
        ws,
        run,
        ap (λ k. shutdown_all sys k s.worker_threads none) serves.topology ∙ down,
        λ i. after ws ends i (lookup i xs) refl,
      )
    where
      in_map : (i : ℕ) → lookup i (create_topology_map xs) ≡ lookup i xs
      in_map i = lookup-create_topology_map i xs ready.distinct

      after :
          (ws : Slots)
          → ((i : ℕ) (t : Topo)
              → lookup i (create_topology_map xs) ≡ some t
              → Ended t (sys.join_fails i) (get_elem? ws i))
          → (i : ℕ) (o : Option Topo) → lookup i xs ≡ o
          → AfterShutdown o (sys.join_fails i) (get_elem? ws i)
      after ws ends i none e = tt
      after ws ends i (some t) e = ends i t (in_map i ∙ e)
