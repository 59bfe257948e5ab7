-- ===== src/Scheduler/Order.antt =====
-- The order of a topology, which the scheduler forgets.
use mathlib.Core.List.{Permᴰ}
use boost_job.Common.{
  ℕ, zero, suc, ◌+◌, ◌-◌, ◌%◌, ◌^◌, ◌≡◌, ◌≢◌, refl, sym, ap, subst, ◌∙◌, Option, none, List, [],
  ◌∷◌, length, get_elem?, replicate, length-replicate, ltb, if◌then◌else◌, arith,
}
use boost_job.Topology.{Topo}
use boost_job.Scheduler.{
  Outcome, returned, WorkerThread, Slots, TopologyMap, Platform, assign_all, create_topology_map,
  lookup, max_element, slot_count, scheduler,
}
use boost_job.Scheduler.Topologies.{
  Distinct, AllBelow, assign_all-IsAscending, lookup-create_topology_map,
  length-create_topology_map,
}
use boost_job.Scheduler.Slots.{slot, allocate_workers-slot}
use boost_job.Scheduler.Startup.{Ready, slot_count_lem, check_size_lem, scheduler_lem}
use boost_job.Scheduler.Same.{head_some, clash, TopologyMap_ext, Slots_ext}
use boost_job.Scheduler.Reorder.{lookup-Permᴰ, max_element-Permᴰ, AllBelow-Permᴰ, read_ids-Permᴰ}

not_empty : (xs ys : TopologyMap) → ((k : ℕ) → lookup k xs ≡ lookup k ys) → xs ≢ [] → ys ≢ []
not_empty [] ys same ne e = ne refl
not_empty ((i, t) ∷ xs) ys same ne e = clash (head_some i t xs) refl (same i ∙ ap (lookup i) e)

Ready-Permᴰ :
    (ts us : List Topo) (xs : TopologyMap)
    → Permᴰ ts us
    → Ready ts xs
    → (ys : TopologyMap) × Ready us ys × Permᴰ xs ys
Ready-Permᴰ ts us xs p ready =
    let (ys, reads, q) = read_ids-Permᴰ ts us p xs ready.reads in
    let (distinct, same) = lookup-Permᴰ xs ys q ready.distinct in
    (
      ys,
      record {
        reads = reads;
        entries = not_empty xs ys same ready.entries;
        distinct = distinct;
        small = AllBelow-Permᴰ (2 ^ 32 - 1) xs ys q ready.small;
      },
      q,
    )

-- The vector has a slot for each number up to the largest id.
number_in : ℕ → Outcome ℕ → ℕ
number_in d (returned n) = n
number_in d _ = d

abbrev size_of : TopologyMap → ℕ
size_of xs = (max_element 0 xs + 1) % 2 ^ 32

slot_count-size_of : (xs : TopologyMap) (n : ℕ) → slot_count xs ≡ returned n → n ≡ size_of xs
unfolding slot_count max_element number_in
slot_count-size_of [] n e = absurd cc
slot_count-size_of ((i, t) ∷ xs) n e =
    sym (ap (number_in n) e) ∙ ap (λ m. (m + 1) % 2 ^ 32) (from_zero i)
  where
    from_zero :
        (i : ℕ) → max_element i xs ≡ (if ltb 0 i then max_element i xs else max_element 0 xs)
    from_zero zero = refl
    from_zero (suc i) = ground arith

same_map :
    (xs ys : TopologyMap)
    → Permᴰ xs ys
    → Distinct xs
    → create_topology_map xs ≡ create_topology_map ys
unfolding create_topology_map
same_map xs ys p d =
    let (d', same) = lookup-Permᴰ xs ys p d in
    TopologyMap_ext (assign_all xs []) (assign_all ys []) (assign_all-IsAscending xs [] tt)
      (assign_all-IsAscending ys [] tt)
      (λ k. lookup-create_topology_map k xs d ∙ same k ∙ sym (lookup-create_topology_map k ys d'))

module _ (sys : Platform) (accepts : (t : Topo) → sys.refuses t ≡ none) where
  built_as :
      (ts : List Topo) (xs : TopologyMap)
      → Ready ts xs
      → (ws : Slots) × (scheduler sys ts
          ≡ returned (record { topology = create_topology_map xs; worker_threads = ws }))
        × (length ws ≡ size_of xs)
        × ((k : ℕ)
            → get_elem? ws k ≡ slot (lookup k xs) (get_elem? (replicate (size_of xs) none) k))
  built_as ts xs ready =
      let (n, count, below) = slot_count_lem xs ready.entries ready.small in
      let size = slot_count-size_of xs n count in
      let (ws, run, same, slots) =
        allocate_workers-slot sys accepts xs (replicate n none) ready.distinct (
          subst (λ k. AllBelow k xs) (sym (length-replicate {0} {A = Option WorkerThread} n none))
            below) in
      (
        ws,
        scheduler_lem sys accepts ts xs n ws ready.reads count
            (check_size_lem xs (create_topology_map xs)
              (sym (length-create_topology_map xs ready.distinct)))
            run,
        same ∙ length-replicate n none ∙ size,
        λ k. slots k ∙ ap (λ m. slot (lookup k xs) (get_elem? (replicate m none) k)) size,
      )

  -- The order of a ready topology makes no difference to the scheduler.
  pub scheduler-Permᴰ :
      (ts us : List Topo) (xs : TopologyMap)
      → Permᴰ ts us
      → Ready ts xs
      → scheduler sys ts ≡ scheduler sys us
  scheduler-Permᴰ ts us xs p ready =
      let (ys, ready', q) = Ready-Permᴰ ts us xs p ready in
      let (ws, run, size, slots) = built_as ts xs ready in
      let (vs, run', size', slots') = built_as us ys ready' in
      let sizes = ap (λ m. (m + 1) % 2 ^ 32) (max_element-Permᴰ xs ys q 0) in
      let (_, same) = lookup-Permᴰ xs ys q ready.distinct in
      let threads : ws ≡ vs = Slots_ext ws vs (size ∙ sizes ∙ sym size') (λ k.
        slots k
        ∙ ap (λ o. slot o (get_elem? (replicate (size_of xs) none) k)) (same k)
        ∙ ap (λ m. slot (lookup k ys) (get_elem? (replicate m none) k)) sizes
        ∙ sym (slots' k)) in
      run
      ∙ ap (λ m. returned (record { topology = m; worker_threads = ws }))
          (same_map xs ys q ready.distinct)
      ∙ ap (λ w. returned (record { topology = create_topology_map ys; worker_threads = w }))
          threads
      ∙ sym run'
