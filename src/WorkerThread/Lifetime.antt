-- ===== src/WorkerThread/Lifetime.antt =====
-- `~scheduler() noexcept` of src/scheduler.cpp: `shutdown`, and then the end of the vector, whose
-- pointers are the only ones to the worker threads.
use boost_job.Common.{
  ℕ, zero, suc, ◌+◌, ◌≡◌, refl, ap, ◌∙◌, true, false, Option, none, some, List, [], ◌∷◌, get_elem?,
  arith, if◌then◌else◌,
}
use boost_job.Topology.{Topo}
use boost_job.Scheduler.{
  Outcome, returned, aborted, ◌>>=◌, WorkerThread, Slots, TopologyMap, Scheduler, Platform,
  create_topology_map, lookup, scheduler, shutdown, end_thread, shutdown_worker,
}
use boost_job.Scheduler.Slots.{last_failure}
use boost_job.Scheduler.Startup.{Ready}
use boost_job.Scheduler.Teardown.{AfterShutdown, shutdown-Ended}
use boost_job.WorkerThread.{Release, freed, intrusive_ptr_add_ref, intrusive_ptr_release, destroy}

module _ (sys : Platform) where
  -- The end of one pointer; `i` is the processor of the slot. The count is what the constructor of the
  -- object and the pointer in the slot have made it.
  release_slot : ℕ → Option WorkerThread → Option Release
  release_slot i none = none
  release_slot i (some w) =
      some
        (intrusive_ptr_release sys i (intrusive_ptr_add_ref (record { use_count = 0; thread = w })))

  unfoldable pub release_slots : ℕ → Slots → List (Option Release)
  unfolding release_slot
  release_slots i [] = []
  release_slots i (o ∷ ws) = release_slot i o ∷ release_slots (suc i) ws

  -- An exception that leaves the destructor ends the program.
  ended : Slots × Option ℕ → Outcome (List (Option Release))
  ended (ws, none) = returned (release_slots 0 ws)
  ended (ws, some e) = aborted

  unfoldable pub end_scheduler : Scheduler → Outcome (List (Option Release))
  unfolding ended
  end_scheduler s = shutdown sys s >>= ended

  release_lem :
      (i : ℕ) (w : WorkerThread)
      → w.joinable ≡ false
      → release_slot i (some w) ≡ some (freed w.topology.node_id false)
  unfolding release_slot intrusive_ptr_add_ref intrusive_ptr_release shutdown_worker destroy
  release_lem i w e =
      ap
        (λ b. some (
          destroy w.topology.node_id
            (if b then end_thread sys w (sys.join_fails i) else (w, none))))
        e
      ∙ ap (λ b. some (freed w.topology.node_id b)) e

  release_slots-at :
      (j i k : ℕ) (ws : Slots) (o : Option WorkerThread)
      → i + j ≡ k
      → get_elem? ws j ≡ some o
      → get_elem? (release_slots i ws) j ≡ some (release_slot k o)
  unfolding release_slots
  release_slots-at j i k [] o h e = absurd cc
  release_slots-at zero i k (w ∷ ws) o h e =
      ap (λ q. elim q [ none ↦ none | some x ↦ some (release_slot i x) ]) e
      ∙ ap (λ n. some (release_slot n o)) (same i k h)
    where
      same : (i k : ℕ) → i + 0 ≡ k → i ≡ k
      same i k h = omega arith
  release_slots-at (suc j) i k (w ∷ ws) o h e = release_slots-at j (suc i) k ws o (omega arith) e

  module _ (accepts : (t : Topo) → sys.refuses t ≡ none)
      (joins : (i : ℕ) → sys.join_fails i ≡ none) where
    none_fails : (m : TopologyMap) → last_failure sys m none ≡ none
    none_fails [] = refl
    none_fails ((i, t) ∷ m) =
        ap (λ e. last_failure sys m (elim e [ none ↦ none | some x ↦ some x ])) (joins i)
        ∙ none_fails m

    slot_freed :
        (ws : Slots) (i : ℕ) (t : Topo) (o : Option Topo)
        → AfterShutdown o (sys.join_fails i) (get_elem? ws i)
        → o ≡ some t
        → get_elem? (release_slots 0 ws) i ≡ some (some (freed t.node_id false))
    slot_freed ws i t none a e = absurd cc
    slot_freed ws i t (some u) (w, at, told, joined, home) e =
        release_slots-at i 0 i ws (some w) (omega arith) at
        ∙ ap some
            (release_lem i w (joined ∙ ap (λ f. elim f [ none ↦ false | some x ↦ true ]) (joins i)))
        ∙ ap (λ v. some (some (freed v.node_id false))) (home ∙ same e)
      where
        same : some u ≡ some t → u ≡ t
        same e = ap (λ q. elim q [ none ↦ u | some x ↦ x ]) e

    -- If all joins succeed, the destructor of a scheduler that the constructor has made from a topology
    -- with distinct ids below 2 ^ 32 - 1 frees the worker thread of each entry, after its thread was
    -- joined, on the node of the entry.
    pub end_scheduler-freed :
        (ts : List Topo) (xs : TopologyMap) (i : ℕ) (t : Topo)
        → Ready ts xs
        → lookup i xs ≡ some t
        → (s : Scheduler) × (rs : List (Option Release)) × (scheduler sys ts ≡ returned s)
          × (end_scheduler s ≡ returned rs)
          × (get_elem? rs i ≡ some (some (freed t.node_id false)))
    unfolding end_scheduler
    end_scheduler-freed ts xs i t ready e =
        let (s, ws, run, down, after) = shutdown-Ended sys accepts ts xs ready in
        (
          s,
          release_slots 0 ws,
          run,
          ap (λ o. o >>= ended)
              (down ∙ ap (λ e. returned (ws, e)) (none_fails (create_topology_map xs))),
          slot_freed ws i t (lookup i xs) (after i) e,
        )
