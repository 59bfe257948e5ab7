-- ===== src/Topology/Windows/Walk.antt =====
-- The walk meets each record of a buffer once.
use boost_job.Common.{
  ℕ, zero, suc, ◌+◌, ◌-◌, ◌%◌, ◌^◌, ◌<◌, ◌≡◌, refl, ap, ◌∙◌, true, false, Option, none, some, List,
  [], ◌∷◌, length, ◌==◌, if◌then◌else◌, arith,
}
use boost_job.Topology.Ids.{erase}
use boost_job.Topology.Windows.{
  NumaNode, Cache, CpuMap, add_node, add_cache, add_nodes, add_caches, topology_of,
}
use boost_job.Topology.Windows.Enumerator.{
  succeeds, fails, filled, ProcInfo, returned, diverges, Enumerator, no_records,
  insufficient_buffer, destroy, fill_buffer, allocate_buffer, probe_result, procinfo_enumerator,
  next_from, next, each, scan_result, scan, entries, scan_caches, cpu_topology,
}

erase-same : (b : ℕ) (bs : List ℕ) → erase b (b ∷ bs) ≡ bs
unfolding erase
erase-same b bs = ap (λ t. if t then bs else b ∷ erase b bs) (same b)
  where
    same : (b : ℕ) → (b == b) ≡ true
    same b = ground arith

module _ {A : Type 0} (sys : ProcInfo A) where
  -- From the address on, the `n` bytes hold these records and nothing else.
  abbrev pub Holds : ℕ → ℕ → List A → Type 0
  Holds a n [] = ⊥
  Holds a n (x ∷ []) = (sys.entry_at a ≡ x) × (sys.size_at a ≡ n) × (0 < n)
  Holds a n (x ∷ y ∷ xs) =
      (sys.entry_at a ≡ x)
      × (0 < sys.size_at a)
      × (sys.size_at a < n)
      × Holds ((a + sys.size_at a) % 2 ^ 64) (n - sys.size_at a) (y ∷ xs)

  -- What the system answers for a list of records.
  pub data Lists : List A → Type 0 where
    no_record : sys.probe ≡ succeeds → Lists []
    in_buffer :
        (xs : List A) (size base n : ℕ)
        → sys.probe ≡ fails insufficient_buffer size
        → sys.local_alloc size ≡ some base
        → sys.fill base size ≡ filled n
        → n < 2 ^ 32
        → Holds base n xs
        → Lists xs

  module _ (body : A → CpuMap → CpuMap) where
    -- The loop body on each record, in their order.
    abbrev pub fold : List A → CpuMap → CpuMap
    fold [] m = m
    fold (x ∷ xs) m = fold xs (body x m)

    abbrev at : Option ℕ → Option ℕ → ℕ → Enumerator
    at b a n = record { base = b; current = a; remaining = n }

    each_done :
        (fuel : ℕ) (b : Option ℕ) (n : ℕ) (m : CpuMap)
        → each sys body (suc fuel) (at b none n) m ≡ some m
    unfolding each
    each_done fuel b n m = refl

    each_next :
        (fuel : ℕ) (b c : Option ℕ) (a n k : ℕ) (m : CpuMap)
        → (n + 2 ^ 32 - sys.size_at a) % 2 ^ 32 ≡ k
        → (if k == 0 then none else some ((a + sys.size_at a) % 2 ^ 64)) ≡ c
        → each sys body (suc fuel) (at b (some a) n) m
          ≡ each sys body fuel (at b c k) (body (sys.entry_at a) m)
    unfolding each next next_from
    each_next fuel b c a n k m less test =
        ap
          (λ r.
            each sys body fuel
              (at b (if r == 0 then none else some ((a + sys.size_at a) % 2 ^ 64)) r)
              (body (sys.entry_at a) m))
          less
        ∙ ap (λ c. each sys body fuel (at b c k) (body (sys.entry_at a) m)) test

    each-fold :
        (xs : List A) (fuel : ℕ) (b : Option ℕ) (a n : ℕ) (m : CpuMap)
        → length xs < fuel
        → n < 2 ^ 32
        → Holds a n xs
        → each sys body fuel (at b (some a) n) m ≡ some (fold xs m)
    each-fold [] fuel b a n m f h l = absurd l
    each-fold (x ∷ []) zero b a n m f h l = absurd (omega arith)
    each-fold (x ∷ []) (suc zero) b a n m f h l = absurd (omega arith)
    each-fold (x ∷ []) (suc (suc fuel)) b a n m f h (e, all, positive) =
        each_next (suc fuel) b none a n 0 m (omega (arith, all)) refl
        ∙ each_done fuel b 0 (body (sys.entry_at a) m)
        ∙ ap (λ y. some (body y m)) e
    each-fold (x ∷ y ∷ xs) zero b a n m f h l = absurd (omega arith)
    each-fold (x ∷ y ∷ xs) (suc fuel) b a n m f h (e, positive, more, rest) =
        each_next fuel b (some ((a + sys.size_at a) % 2 ^ 64)) a n (n - sys.size_at a) m
          (omega (arith, positive, more))
          (going (n - sys.size_at a) ((a + sys.size_at a) % 2 ^ 64) (omega arith))
        ∙ each-fold (y ∷ xs) fuel b ((a + sys.size_at a) % 2 ^ 64) (n - sys.size_at a)
            (body (sys.entry_at a) m) (omega arith) (omega arith) rest
        ∙ ap (λ z. some (fold (y ∷ xs) (body z m))) e
      where
        going : (k c : ℕ) → 0 < k → (if k == 0 then none else some c) ≡ some c
        going k c h = ap (λ b. if b then none else some c) (positive_lem k h)
          where
            positive_lem : (k : ℕ) → 0 < k → (k == 0) ≡ false
            positive_lem k h = ground arith

    scan-Lists :
        (xs : List A) (fuel : ℕ) (m : CpuMap) (blocks : List ℕ)
        → length xs < fuel
        → Lists xs
        → scan sys body fuel m blocks ≡ (returned (fold xs m), blocks)
    unfolding scan procinfo_enumerator scan_result destroy
    scan-Lists _ fuel m blocks f (no_record p) =
        ap (λ p. scan_result sys body fuel m (probe_result sys p blocks)) p ∙ empty fuel f
      where
        empty :
            (fuel : ℕ)
            → 0 < fuel
            → scan_result sys body fuel m (returned no_records, blocks) ≡ (returned m, blocks)
        empty zero h = absurd (omega arith)
        empty (suc fuel) h = refl
    scan-Lists xs fuel m blocks f (in_buffer _ size base n p a w small l) =
        ap (λ p. scan_result sys body fuel m (probe_result sys p blocks)) p
        ∙ ap (λ o. scan_result sys body fuel m (allocate_buffer sys size o blocks)) a
        ∙ ap (λ w. scan_result sys body fuel m (fill_buffer sys base w (base ∷ blocks))) w
        ∙ ap
            (λ o. elim o [
              | none ↦ (diverges, base ∷ blocks)
              | some m' ↦ (returned m', erase base (base ∷ blocks))
            ])
            (each-fold xs fuel (some base) base n m f small l)
        ∙ ap (λ bs. (returned (fold xs m), bs)) (erase-same base blocks)

add_nodes-fold :
    (sys : ProcInfo NumaNode) (ns : List NumaNode) (m : CpuMap)
    → fold sys add_node ns m ≡ add_nodes ns m
unfolding add_nodes
add_nodes-fold sys [] m = refl
add_nodes-fold sys (n ∷ ns) m = add_nodes-fold sys ns (add_node n m)

add_caches-fold :
    (sys : ProcInfo Cache) (cs : List Cache) (m : CpuMap)
    → fold sys add_cache cs m ≡ add_caches cs m
unfolding add_caches
add_caches-fold sys [] m = refl
add_caches-fold sys (c ∷ cs) m = add_caches-fold sys cs (add_cache c m)

-- If the system answers with a list of NUMA nodes and a list of caches, each of them empty or in a
-- buffer of records whose sizes add up to less than 2 ^ 32 bytes, then with fuel above the lengths of
-- both lists `cpu_topology` meets each record once, in their order, returns the topology of these
-- lists, and leaves no block allocated that was not before.
pub cpu_topology-Lists :
    (nodes : ProcInfo NumaNode) (caches : ProcInfo Cache) (ns : List NumaNode) (cs : List Cache)
    (fuel : ℕ) (blocks : List ℕ)
    → length ns < fuel
    → length cs < fuel
    → Lists nodes ns
    → Lists caches cs
    → cpu_topology fuel nodes caches blocks ≡ (returned (topology_of ns cs), blocks)
unfolding cpu_topology topology_of scan_caches entries
cpu_topology-Lists nodes caches ns cs fuel blocks fn fc ln lc =
    ap (λ r. entries (scan_caches fuel caches r))
      (scan-Lists nodes add_node ns fuel [] blocks fn ln
        ∙ ap (λ m. (returned m, blocks)) (add_nodes-fold nodes ns []))
    ∙ ap entries (
        scan-Lists caches add_cache cs fuel (add_nodes ns []) blocks fc lc
        ∙ ap (λ m. (returned m, blocks)) (add_caches-fold caches cs (add_nodes ns [])))
