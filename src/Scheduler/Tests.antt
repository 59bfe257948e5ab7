-- ===== src/Scheduler/Tests.antt =====
-- A scheduler for processors 1 and 3 on two nodes.
use mathlib.Core.List.{Permᴰ}
use mathlib.Core.Quot
use boost_job.Common.{
  ℕ, ◌≡◌, refl, none, some, List, [], ◌∷◌, ◌==◌, if◌then◌else◌, get_elem?, arith,
}
use boost_job.Topology.{Topo, blank}
use boost_job.Scheduler.{
  returned, Slots, TopologyMap, Scheduler, Platform, read_ids, create_topology_map, lookup,
  scheduler, shutdown,
}
use boost_job.Scheduler.Slots.{last_failure}
use boost_job.Scheduler.Startup.{Ready, Serves, scheduler-Serves}
use boost_job.Scheduler.Unordered.{ReadyTopology, scheduler_of, scheduler-Processors}
use boost_job.Scheduler.Teardown.{AfterShutdown, shutdown-Ended}

abbrev sys : Platform
sys = record { refuses = λ t. none; join_fails = λ i. if i == 1 then some 5 else none }

abbrev cpu : ℕ → ℕ → Topo
cpu node i = record blank { node_id = some node; processor_id = some i }

abbrev cpus : List Topo
cpus = cpu 0 3 ∷ cpu 1 1 ∷ []

abbrev ids : TopologyMap
ids = (3, cpu 0 3) ∷ (1, cpu 1 1) ∷ []

cpus-Ready : Ready cpus ids
unfolding read_ids
cpus-Ready = record {
  reads = refl;
  entries = λ e. absurd cc;
  distinct = (refl, (refl, tt));
  small = (omega arith, (omega arith, tt));
}

scheduler-Serves_example : (s : Scheduler) × (scheduler sys cpus ≡ returned s) × Serves ids s
scheduler-Serves_example = scheduler-Serves sys (λ t. refl) cpus ids cpus-Ready

shutdown-Ended_example :
    (s : Scheduler) × (ws : Slots) × (scheduler sys cpus ≡ returned s)
    × (shutdown sys s ≡ returned (ws, last_failure sys (create_topology_map ids) none))
    × ((i : ℕ) → AfterShutdown (lookup i ids) (sys.join_fails i) (get_elem? ws i))
shutdown-Ended_example = shutdown-Ended sys (λ t. refl) cpus ids cpus-Ready

abbrev ready_cpus : ReadyTopology
ready_cpus = record { entries = cpus; ids = ids; ready = cpus-Ready }

abbrev reversed : List Topo
reversed = cpu 1 1 ∷ cpu 0 3 ∷ []

scheduler-Processors_example :
    (scheduler sys cpus ≡ returned (scheduler_of sys (λ t. refl) (Quot.mk ready_cpus)))
    × (scheduler sys reversed ≡ returned (scheduler_of sys (λ t. refl) (Quot.mk ready_cpus)))
scheduler-Processors_example =
    scheduler-Processors sys (λ t. refl) ready_cpus reversed (Permᴰ.swap refl refl)
