-- ===== src/Topology/Freebsd/Ones.antt =====
-- What `cpu_topology` of FreeBSD lists.
use boost_job.Common.{
  ℕ, zero, suc, ◌+◌, ◌-◌, ◌^◌, ◌<◌, ◌≡◌, refl, ap, ◌∙◌, ◌⊎◌, inl, inr, some, List, [], ◌∷◌, ◌++◌,
  append_assoc, replicate, arith,
}
use boost_job.Topology.{Topo, blank}
use boost_job.Topology.Freebsd.{
  Cpuset, enumerate, Calls, returned, completed, read_set, with_set, cpu_topology,
}

-- The only entry there is.
abbrev pub entry_one : Topo
entry_one = record blank { node_id = some 0; processor_id = some 1 }

-- How many of the `d` processors from `i` on the thread may run on.
abbrev pub count_from : Cpuset → ℕ → ℕ → ℕ
count_from set zero i = 0
count_from set (suc d) i = set.isset i + count_from set d (suc i)

module _ (set : Cpuset) where
  stops :
      (fuel i : ℕ) (topo : List Topo)
      → set.isset i ≡ 2 ^ 32 - 1
      → enumerate (suc fuel) set i topo ≡ some topo
  unfolding enumerate
  stops fuel i topo e = rw (enumerate, e) refl

  skips :
      (fuel i : ℕ) (topo : List Topo)
      → set.isset i ≡ 0
      → enumerate (suc fuel) set i topo ≡ enumerate fuel set (suc i) topo
  unfolding enumerate
  skips fuel i topo e = rw (enumerate, e) refl

  finds :
      (fuel i : ℕ) (topo : List Topo)
      → set.isset i ≡ 1
      → enumerate (suc fuel) set i topo ≡ enumerate fuel set (suc i) (topo ++ entry_one ∷ [])
  unfolding enumerate
  finds fuel i topo e = rw (enumerate, e) refl

  module _ (n : ℕ) (answers : (i : ℕ) → i < n → (set.isset i ≡ 0) ⊎ (set.isset i ≡ 1))
      (ends : set.isset n ≡ 2 ^ 32 - 1) where
    enumerate-ones :
        (d i fuel : ℕ) (topo : List Topo)
        → i + d ≡ n
        → d < fuel
        → enumerate fuel set i topo ≡ some (topo ++ replicate (count_from set d i) entry_one)
    enumerate-ones d i zero topo e h = absurd (omega arith)
    enumerate-ones zero i (suc fuel) topo e h =
        stops fuel i topo (ap set.isset (omega (arith, e)) ∙ ends) ∙ ap some (append_nil topo)
      where
        append_nil : (ts : List Topo) → ts ≡ ts ++ []
        append_nil [] = refl
        append_nil (t ∷ ts) = ap (λ us. t ∷ us) (append_nil ts)
    enumerate-ones (suc d) i (suc fuel) topo e h = elim (answers i (omega (arith, e))) [
      | inl z ↦
          skips fuel i topo z
          ∙ enumerate-ones d (suc i) fuel topo (omega (arith, e)) (omega arith)
          ∙ ap (λ k. some (topo ++ replicate k entry_one)) (same i (count_from set d (suc i)) z)
      | inr o ↦
          finds fuel i topo o
          ∙ enumerate-ones d (suc i) fuel (topo ++ entry_one ∷ []) (omega (arith, e)) (omega arith)
          ∙ ap some
              (append_assoc topo (entry_one ∷ []) (replicate (count_from set d (suc i)) entry_one))
          ∙ ap (λ k. some (topo ++ replicate k entry_one)) (more i (count_from set d (suc i)) o)
    ]
      where
        same : (i c : ℕ) → set.isset i ≡ 0 → c ≡ set.isset i + c
        same i c z = omega (arith, z)

        more : (i c : ℕ) → set.isset i ≡ 1 → suc c ≡ set.isset i + c
        more i c o = omega (arith, o)

module _ {State : Type 0} (sys : Calls State) where
  -- If the set is created and filled, and `cpuset_isset` answers zero or one for each index below `n`
  -- and -1 at `n`, then with fuel above `n` the function returns one entry for each processor of the
  -- set, but every entry has the processor id 1; the set is destroyed.
  pub cpu_topology-ones :
      (fuel n a : ℕ) (s t u : State)
      → sys.cpuset_create s ≡ (some a, t)
      → sys.pthread_getaffinity_np a (sys.cpuset_zero a t) ≡ (0, u)
      → ((i : ℕ) → i < n → ((sys.content a u).isset i ≡ 0) ⊎ ((sys.content a u).isset i ≡ 1))
      → (sys.content a u).isset n ≡ 2 ^ 32 - 1
      → n < fuel
      → cpu_topology fuel sys s ≡ (
        returned (replicate (count_from (sys.content a u) n 0) entry_one),
        sys.cpuset_destroy a u,
      )
  unfolding cpu_topology with_set read_set
  cpu_topology-ones fuel n a s t u made got answers ends h =
      ap (with_set fuel sys) made
      ∙ ap (λ r. (read_set fuel sys a r, sys.cpuset_destroy a r.1)) got
      ∙ ap (λ o. (completed o, sys.cpuset_destroy a u))
          (enumerate-ones (sys.content a u) n answers ends n 0 fuel [] (omega arith) h)
