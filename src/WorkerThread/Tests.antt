-- ===== src/WorkerThread/Tests.antt =====
-- One worker thread on node 2, and a scheduler with it.
use boost_job.Common.{
  replicate, false, Option, get_elem?, ℕ, ◌+◌, ◌-◌, ◌≡◌, refl, none, some, List, [], ◌∷◌, arith,
}
use boost_job.Topology.{Topo, blank}
use boost_job.Scheduler.{returned, TopologyMap, Scheduler, Platform, read_ids, scheduler}
use boost_job.Scheduler.Slots.{started}
use boost_job.Scheduler.Startup.{Ready}
use boost_job.WorkerThread.{Release, freed, Use, copies, drops, run_uses}
use boost_job.WorkerThread.Counting.{holders, held_by, run_uses-holders}
use boost_job.WorkerThread.Lifetime.{end_scheduler, end_scheduler-freed}
use boost_job.WorkerThread.Miscount.{copy_drop_race-run_uses}
use boost_job.WorkerThread.Race.{ready, stored, shared, Reach}

abbrev sys : Platform
sys = record { refuses = λ t. none; join_fails = λ i. none }

abbrev cpu : Topo
cpu = record blank { node_id = some 2; processor_id = some 3 }

abbrev uses : List Use
uses = copies ∷ drops ∷ drops ∷ copies ∷ []

run_uses-holders_example :
    run_uses sys 3 uses (held_by sys 3 (started cpu) (some 1))
    ≡ held_by sys 3 (started cpu) (holders 1 uses)
run_uses-holders_example = run_uses-holders sys 3 (started cpu) uses 1 (omega arith) (omega arith)

copy_drop_race-run_uses_example :
    ((x : ℕ) × (y : ℕ) × Reach
        (shared 3 false ready ready)
        (shared (3 - 1) false (stored x) (stored y)))
    × (run_uses sys 3 (replicate (3 - 1) drops) (held_by sys 3 (started cpu) (some (3 - 1)))
        ≡ held_by sys 3 (started cpu) none)
    × ((x : ℕ) × (y : ℕ) × Reach
          (shared 3 false ready ready)
          (shared (3 + 1) false (stored x) (stored y)))
    × (run_uses sys 3 (replicate 3 drops) (held_by sys 3 (started cpu) (some (3 + 1)))
        ≡ held_by sys 3 (started cpu) (some 1))
copy_drop_race-run_uses_example =
    copy_drop_race-run_uses sys 3 (started cpu) 3 (omega arith) (omega arith)

abbrev ids : TopologyMap
ids = (3, cpu) ∷ []

cpu-Ready : Ready (cpu ∷ []) ids
unfolding read_ids
cpu-Ready = record {
  reads = refl;
  entries = λ e. absurd cc;
  distinct = (refl, tt);
  small = (omega arith, tt);
}

end_scheduler-freed_example :
    (s : Scheduler) × (rs : List (Option Release)) × (scheduler sys (cpu ∷ []) ≡ returned s)
    × (end_scheduler sys s ≡ returned rs)
    × (get_elem? rs 3 ≡ some (some (freed (some 2) false)))
end_scheduler-freed_example =
    end_scheduler-freed sys (λ t. refl) (λ i. refl) (cpu ∷ []) ids 3 cpu cpu-Ready refl
