-- ===== src/Scheduler/Slots.antt =====
-- The loops of the constructor and of `shutdown` over the slots.
use boost_job.Common.{
  ℕ, ◌<◌, ◌≡◌, refl, sym, ap, subst, ◌∙◌, ◌≢◌, Bool, true, false, Option, none, some, [], ◌∷◌,
  length, length-set, get_elem?, get_elem?-set_self, get_elem?-set_ne, get_elem?-lt-length, set,
  ltb, ◌==◌, Option-cases, inl, inr, ℕ_discrete, arith,
}
use boost_job.Topology.{Topo}
use boost_job.Rendezvous
use boost_job.Rendezvous.{Rendezvous}
use boost_job.Scheduler.{
  returned, WorkerThread, Slots, TopologyMap, Platform, lookup, create, allocate_workers,
  end_thread, shutdown_worker, latest, shutdown_all,
}
use boost_job.Scheduler.Topologies.{Distinct, AllBelow}

abbrev pub started : Topo → WorkerThread
started t = record { rdzv = Rendezvous.fresh; topology = t; joinable = true }

-- A slot after the loop: the thread of its entry, or what was there.
abbrev pub slot : Option Topo → Option (Option WorkerThread) → Option (Option WorkerThread)
slot none o = o
slot (some t) o = some (some (started t))

pub ==_refl : (i : ℕ) → (i == i) ≡ true
==_refl i = ground arith

-- The lookup of the loop's head, for an index that is and that is not its id.
lookup-head : (i : ℕ) (t : Topo) (m : TopologyMap) → lookup i ((i, t) ∷ m) ≡ some t
lookup-head i t m = ground arith

pub lookup-tail :
    (i j : ℕ) (t : Topo) (m : TopologyMap) → i ≢ j → lookup j ((i, t) ∷ m) ≡ lookup j m
lookup-tail i j t m ne = ground arith

module _ (sys : Platform) (accepts : (t : Topo) → sys.refuses t ≡ none) where
  pub create_lem : (t : Topo) → create sys t ≡ returned (started t)
  unfolding create
  create_lem t = rw (create, accepts t) refl

  pub allocate_workers-slot :
      (xs : TopologyMap) (ws : Slots)
      → Distinct xs
      → AllBelow (length ws) xs
      → (ws' : Slots) × (allocate_workers sys xs ws ≡ returned ws')
        × (length ws' ≡ length ws)
        × ((j : ℕ) → get_elem? ws' j ≡ slot (lookup j xs) (get_elem? ws j))
  unfolding allocate_workers
  allocate_workers-slot [] ws d b = (ws, refl, refl, λ j. refl)
  allocate_workers-slot ((i, t) ∷ xs) ws d b =
      let new = set ws i (some (started t)) in
      let same : length new ≡ length ws = length-set ws i (some (started t)) in
      let (ws', run, size, slots) =
        allocate_workers-slot xs new d.1 (subst (λ n. AllBelow n xs) (sym same) b.1) in
      (
        ws',
        rw (create_lem t, below b.0, run) refl,
        size ∙ same,
        λ j. slots j ∙ step j (ℕ_discrete i j),
      )
    where
      below : i < length ws → ltb i (length ws) ≡ true
      below h = ground arith

      step :
          (j : ℕ)
          → Dec (i ≡ j)
          → slot (lookup j xs) (get_elem? (set ws i (some (started t))) j)
            ≡ slot (lookup j ((i, t) ∷ xs)) (get_elem? ws j)
      step j (yes e) =
          subst
            (λ k.
              slot (lookup k xs) (get_elem? (set ws i (some (started t))) k)
              ≡ slot (lookup k ((i, t) ∷ xs)) (get_elem? ws k))
            e (rw (d.0, ==_refl i) (get_elem?-set_self ws i (some (started t)) b.0))
      step j (no ne) =
          rw (lookup-tail i j t xs ne, get_elem?-set_ne ws i j (some (started t)) ne) refl

-- Every entry of the map has a thread that can be joined.
abbrev pub Manned : TopologyMap → Slots → Type 0
Manned m ws =
    (i : ℕ) (t : Topo)
    → lookup i m ≡ some t
    → (w : WorkerThread) × (get_elem? ws i ≡ some (some w)) × (w.joinable ≡ true) × (w.topology ≡ t)

abbrev pub is_some : Option ℕ → Bool
is_some none = false
is_some (some e) = true

-- The thread of an entry, told to end, and joined unless the join fails.
abbrev pub Ended : Topo → Option ℕ → Option (Option WorkerThread) → Type 0
Ended t e o =
    (w : WorkerThread) × (o ≡ some (some w))
    × (w.rdzv.flag ≡ true)
    × (w.joinable ≡ is_some e)
    × (w.topology ≡ t)

module _ (sys : Platform) where
  -- The exception of the last failing join, in the order of the map.
  abbrev pub last_failure : TopologyMap → Option ℕ → Option ℕ
  last_failure [] e = e
  last_failure ((i, t) ∷ m) e = last_failure m (latest sys e (sys.join_fails i))

  shutdown_worker_lem :
      (i : ℕ) (w : WorkerThread)
      → w.joinable ≡ true
      → (w' : WorkerThread) × (shutdown_worker sys i w ≡ (w', sys.join_fails i))
        × (w'.rdzv.flag ≡ true)
        × (w'.joinable ≡ is_some (sys.join_fails i))
        × (w'.topology ≡ w.topology)
  unfolding shutdown_worker end_thread Rendezvous.notify
  shutdown_worker_lem i w e = elim (Option-cases (sys.join_fails i)) [
    | inl f ↦ (
      record w { rdzv = Rendezvous.notify w.rdzv; joinable = false },
      rw (e, f) refl,
      refl,
      rw f refl,
      refl,
    )
    | inr f ↦ (
      record w { rdzv = Rendezvous.notify w.rdzv },
      rw (e, f.1) refl,
      refl,
      rw (e, f.1) refl,
      refl,
    )
  ]

  shutdown_all_cons :
      (i : ℕ) (t : Topo) (m : TopologyMap) (ws : Slots) (except : Option ℕ)
      → (w w' : WorkerThread) (e : Option ℕ) → get_elem? ws i ≡ some (some w)
      → shutdown_worker sys i w ≡ (w', e)
      → shutdown_all sys ((i, t) ∷ m) ws except
        ≡ shutdown_all sys m (set ws i (some w')) (latest sys except e)
  unfolding shutdown_all
  shutdown_all_cons i t m ws except w w' e at run = rw (shutdown_all, at, run) refl

  pub shutdown_all-Ended :
      (m : TopologyMap) (ws : Slots) (except : Option ℕ)
      → Distinct m
      → Manned m ws
      → (ws' : Slots) × (shutdown_all sys m ws except ≡ returned (ws', last_failure m except))
        × ((i : ℕ) (t : Topo) → lookup i m ≡ some t → Ended t (sys.join_fails i) (get_elem? ws' i))
        × ((i : ℕ) → lookup i m ≡ none → get_elem? ws' i ≡ get_elem? ws i)
  unfolding shutdown_all
  shutdown_all-Ended [] ws except d man = (ws, refl, λ i t e. absurd cc, λ i e. refl)
  shutdown_all-Ended ((i, t) ∷ m) ws except d man =
      let (w, at, can, home) = man i t (lookup-head i t m) in
      let (w', run, told, joined, same_home) = shutdown_worker_lem i w can in
      let (ws', rest, ends, keeps) =
        shutdown_all-Ended m (set ws i (some w')) (latest sys except (sys.join_fails i)) d.1
          (still w') in
      (
        ws',
        shutdown_all_cons i t m ws except w w' _ at run ∙ rest,
        λ j u e. elim (ℕ_discrete i j) [
          | yes same ↦
              subst (λ k. Ended u (sys.join_fails k) (get_elem? ws' k)) same
                (
                  w',
                  keeps i d.0
                      ∙ get_elem?-set_self ws i (some w') (get_elem?-lt-length ws i (some w) at),
                  told,
                  joined,
                  same_home ∙ home ∙ entry j u same e,
                )
          | no ne ↦ ends j u (sym (lookup-tail i j t m ne) ∙ e)
        ],
        λ j e. elim (ℕ_discrete i j) [
          | yes same ↦
              absurd
                (some_none (sym (lookup-head i t m) ∙ ap (λ k. lookup k ((i, t) ∷ m)) same ∙ e))
          | no ne ↦
              keeps j (sym (lookup-tail i j t m ne) ∙ e) ∙ get_elem?-set_ne ws i j (some w') ne
        ],
      )
    where
      some_none : some t ≡ none → ⊥
      some_none e = cc

      entry : (j : ℕ) (u : Topo) → i ≡ j → lookup j ((i, t) ∷ m) ≡ some u → t ≡ u
      entry j u same e =
          ap (λ o. elim o [ none ↦ t | some x ↦ x ])
            (sym (lookup-head i t m) ∙ ap (λ k. lookup k ((i, t) ∷ m)) same ∙ e)

      some_none_at : (j : ℕ) (u : Topo) → lookup j m ≡ some u → i ≡ j → ⊥
      some_none_at j u e same = absurd (none_some (sym d.0 ∙ ap (λ k. lookup k m) same ∙ e))
        where
          none_some : none ≡ some u → ⊥
          none_some e = cc

      still : (w' : WorkerThread) → Manned m (set ws i (some w'))
      still w' j u e = elim (ℕ_discrete i j) [
        | yes same ↦ absurd (some_none_at j u e same)
        | no ne ↦
            let (w, at, can, home) = man j u (lookup-tail i j t m ne ∙ e) in
            (w, get_elem?-set_ne ws i j (some w') ne ∙ at, can, home)
      ]
