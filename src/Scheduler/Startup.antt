-- ===== src/Scheduler/Startup.antt =====
-- The constructor of the scheduler, and which thread a job for a processor goes to.
use boost_job.Common.{
  if◌then◌else◌, ℕ, zero, suc, ◌+◌, ◌-◌, ◌%◌, ◌^◌, ◌≤◌, ◌<◌, ◌≡◌, refl, sym, ap, subst, ◌∙◌, ◌≢◌,
  Option, none, some, List, [], ◌∷◌, length, length-replicate, get_elem?, get_elem?-lt-length, ltb,
  Bool-cases, inl, inr, true, false, get_elem?-replicate, replicate, arith,
}
use boost_job.Topology.{Topo}
use boost_job.Scheduler.{
  Outcome, returned, undefined, WorkerThread, Slots, TopologyMap, Scheduler, Platform, read_ids,
  create_topology_map, lookup, max_element, slot_count, check_size, allocate_workers, scheduler,
  worker_at, submit_target, node_of,
}
use boost_job.Scheduler.Topologies.{
  Distinct, AllBelow, lookup-create_topology_map, length-create_topology_map, max_element-le,
  max_element-AllBelow, max_element-lt,
}
use boost_job.Scheduler.Slots.{started, slot, ==_refl, allocate_workers-slot}

-- A topology with entries, whose ids are written, distinct and less than the largest 32-bit number.
pub record Ready (ts : List Topo) (xs : TopologyMap) : Type 0 where
  pub reads : read_ids ts ≡ returned xs
  pub entries : xs ≢ []
  pub distinct : Distinct xs
  pub small : AllBelow (2 ^ 32 - 1) xs

-- The thread of a processor, null where the topology has no entry.
abbrev pub thread_of : Option Topo → Option WorkerThread
thread_of none = none
thread_of (some t) = some (started t)

abbrev pub target_of : Option Topo → Outcome (WorkerThread × Option ℕ)
target_of none = undefined
target_of (some t) = returned (started t, t.node_id)

-- A scheduler with one started thread for each entry, holes elsewhere, and each job sent to the
-- thread of its processor, with memory on the node of that processor.
pub record Serves (xs : TopologyMap) (s : Scheduler) : Type 0 where
  pub topology : s.topology ≡ create_topology_map xs
  pub worker :
      (i : ℕ)
      → worker_at s i ≡ (
          if ltb i (length s.worker_threads) then returned (thread_of (lookup i xs)) else undefined)
  pub target : (i : ℕ) → submit_target s i ≡ target_of (lookup i xs)

abbrev empty_slot : Option WorkerThread
empty_slot = none

get_elem?-outside : (ws : Slots) (i : ℕ) → length ws ≤ i → get_elem? ws i ≡ none
get_elem?-outside [] i h = refl
get_elem?-outside (w ∷ ws) zero h = absurd (omega arith)
get_elem?-outside (w ∷ ws) (suc i) h = get_elem?-outside ws i (omega arith)

worker_at_lem :
    (s : Scheduler) (i : ℕ) (w : Option WorkerThread)
    → get_elem? s.worker_threads i ≡ some w
    → worker_at s i ≡ returned w
unfolding worker_at
worker_at_lem s i w e = rw (worker_at, e) refl

worker_at-outside :
    (s : Scheduler) (i : ℕ) → get_elem? s.worker_threads i ≡ none → worker_at s i ≡ undefined
unfolding worker_at
worker_at-outside s i e = rw (worker_at, e) refl

submit_target_lem :
    (s : Scheduler) (i : ℕ) (w : WorkerThread) (t : Topo)
    → worker_at s i ≡ returned (some w)
    → lookup i s.topology ≡ some t
    → submit_target s i ≡ returned (w, t.node_id)
unfolding submit_target node_of
submit_target_lem s i w t e l = rw (submit_target, e, l) refl

submit_target-hole :
    (s : Scheduler) (i : ℕ) → worker_at s i ≡ returned none → submit_target s i ≡ undefined
unfolding submit_target
submit_target-hole s i e = rw (submit_target, e) refl

submit_target-outside :
    (s : Scheduler) (i : ℕ) → worker_at s i ≡ undefined → submit_target s i ≡ undefined
unfolding submit_target
submit_target-outside s i e = rw (submit_target, e) refl

pub slot_count_lem :
    (xs : TopologyMap)
    → xs ≢ []
    → AllBelow (2 ^ 32 - 1) xs
    → (n : ℕ) × (slot_count xs ≡ returned n) × AllBelow n xs
unfolding slot_count
slot_count_lem [] ne b = absurd (ne refl)
slot_count_lem ((i, t) ∷ xs) ne b =
    let m = max_element i xs in
    let fits : (m + 1) % 2 ^ 32 ≡ suc m = omega (arith, max_element-lt i (2 ^ 32 - 1) xs b.0 b.1) in
    (suc m, ap returned fits, (omega (arith, max_element-le i xs), max_element-AllBelow i xs))

pub check_size_lem : (xs m : TopologyMap) → length xs ≡ length m → check_size xs m ≡ returned tt
unfolding check_size
check_size_lem xs m e = rw (check_size, e, ==_refl (length m)) refl

slot-free : (n j : ℕ) → j < n → get_elem? (replicate n empty_slot) j ≡ some none
slot-free n j h = get_elem?-replicate n j none h

below-lookup :
    (b i : ℕ) (t : Topo) (xs : TopologyMap) → AllBelow b xs → lookup i xs ≡ some t → i < b
below-lookup b i t [] a e = absurd cc
below-lookup b i t ((j, u) ∷ xs) a e = ground (arith, below-lookup b i t xs)

module _ (sys : Platform) (accepts : (t : Topo) → sys.refuses t ≡ none) where
  pub scheduler_lem :
      (ts : List Topo) (xs : TopologyMap) (n : ℕ) (ws : Slots)
      → read_ids ts ≡ returned xs
      → slot_count xs ≡ returned n
      → check_size xs (create_topology_map xs) ≡ returned tt
      → allocate_workers sys xs (replicate n none) ≡ returned ws
      → scheduler sys ts
        ≡ returned (record { topology = create_topology_map xs; worker_threads = ws })
  unfolding scheduler
  scheduler_lem ts xs n ws r c k a = rw (scheduler, r, c, k, a) refl

  module _ (xs : TopologyMap) (n : ℕ) (ws : Slots) (distinct : Distinct xs) (below : AllBelow n xs)
      (size : length ws ≡ n)
      (slots : (j : ℕ) → get_elem? ws j ≡ slot (lookup j xs) (get_elem? (replicate n none) j)) where
    built : Scheduler
    built = record { topology = create_topology_map xs; worker_threads = ws }

    slot_lem :
        (i : ℕ) (o : Option Topo) → lookup i xs ≡ o → i < n → get_elem? ws i ≡ some (thread_of o)
    slot_lem i none e h =
        slots i ∙ ap (λ o. slot o (get_elem? (replicate n none) i)) e ∙ slot-free n i h
    slot_lem i (some t) e h = slots i ∙ ap (λ o. slot o (get_elem? (replicate n none) i)) e

    worker_lem :
        (i : ℕ)
        → worker_at built i
          ≡ (if ltb i (length ws) then returned (thread_of (lookup i xs)) else undefined)
    unfolding built
    worker_lem i = elim (Bool-cases (ltb i (length ws))) [
      | inl b ↦ rw b (
          worker_at_lem built i (thread_of (lookup i xs))
            (slot_lem i (lookup i xs) refl (inside i (length ws) b size)))
      | inr b ↦ rw b (worker_at-outside built i (get_elem?-outside ws i (outside i (length ws) b)))
    ]
      where
        inside : (i l : ℕ) → ltb i l ≡ true → l ≡ n → i < n
        inside i l b e = ground arith

        outside : (i l : ℕ) → ltb i l ≡ false → l ≤ i
        outside i l b = ground arith

    target_lem : (i : ℕ) (o : Option Topo) → lookup i xs ≡ o → submit_target built i ≡ target_of o
    unfolding built
    target_lem i none e = hole (get_elem? ws i) refl
      where
        nobody : get_elem? ws i ≡ none → submit_target built i ≡ undefined
        nobody m = submit_target-outside built i (worker_at-outside built i m)

        hole :
            (w : Option (Option WorkerThread))
            → get_elem? ws i ≡ w
            → submit_target built i ≡ undefined
        hole none m = nobody m
        hole (some w) m = submit_target-hole built i (
            worker_at_lem built i none
              (slot_lem i none e (omega (arith, get_elem?-lt-length ws i w m, size))))
    target_lem i (some t) e =
        submit_target_lem built i (started t) t
          (worker_at_lem built i (some (started t))
            (slot_lem i (some t) e (below-lookup n i t xs below e)))
          (lookup-create_topology_map i xs distinct ∙ e)

    serves : Serves xs (record { topology = create_topology_map xs; worker_threads = ws })
    unfolding built
    serves = record {
      topology = refl;
      worker = worker_lem;
      target = λ i. target_lem i (lookup i xs) refl;
    }

  pub scheduler-built :
      (ts : List Topo) (xs : TopologyMap)
      → Ready ts xs
      → (s : Scheduler) × (scheduler sys ts ≡ returned s)
        × Serves xs s
        × ((i : ℕ) (t : Topo)
            → lookup i xs ≡ some t
            → get_elem? s.worker_threads i ≡ some (some (started t)))
  scheduler-built ts xs ready =
      let (n, count, below) = slot_count_lem xs ready.entries ready.small in
      let size = length-replicate n empty_slot in
      let (ws, run, same, slots) =
        allocate_workers-slot sys accepts xs (replicate n none) ready.distinct
          (subst (λ k. AllBelow k xs) (sym size) below) in
      (
        record { topology = create_topology_map xs; worker_threads = ws },
        scheduler_lem ts xs n ws ready.reads count
            (check_size_lem xs (create_topology_map xs)
              (sym (length-create_topology_map xs ready.distinct)))
            run,
        serves xs n ws ready.distinct below (same ∙ size) slots,
        λ i t e.
            slot_lem xs n ws ready.distinct below (same ∙ size) slots i (some t) e
              (below-lookup n i t xs below e),
      )

  -- If the system refuses neither memory nor threads, then for a topology with at least one entry,
  -- whose processor ids are written, distinct and below 2 ^ 32 - 1, the constructor returns a
  -- scheduler: each id of the topology has its own started thread, the other indices below the
  -- size of the vector are null, and a job for an id goes to its thread with memory on its node.
  -- An index beyond the vector, and a job for an id that the topology lacks, are undefined.
  pub scheduler-Serves :
      (ts : List Topo) (xs : TopologyMap)
      → Ready ts xs
      → (s : Scheduler) × (scheduler sys ts ≡ returned s) × Serves xs s
  scheduler-Serves ts xs ready =
      let (s, run, serves, _) = scheduler-built ts xs ready in (s, run, serves)
