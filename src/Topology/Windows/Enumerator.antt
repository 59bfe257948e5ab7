-- ===== src/Topology/Windows/Enumerator.antt =====
-- `procinfo_enumerator` and `cpu_topology` of src/windows/topology.cpp. The functions of the system
-- are a parameter; the blocks that `LocalAlloc` has given out and `LocalFree` has not taken back are
-- a list.
use boost_job.Common.{
  ℕ, zero, suc, ◌+◌, ◌-◌, ◌%◌, ◌^◌, Option, none, some, List, [], ◌∷◌, map, ◌==◌, if◌then◌else◌,
}
use boost_job.Topology.{Topo}
use boost_job.Topology.Ids.{erase}
use boost_job.Topology.Windows.{NumaNode, Cache, CpuMap, add_node, add_cache}

-- The first call of `GetLogicalProcessorInformationEx`, without a buffer: it fails with an error,
-- and with the size that the buffer must have.
pub data Probe : Type 0 where
  succeeds : Probe
  fails : ℕ → ℕ → Probe

-- The second call: the size of what it has written.
pub data Fill : Type 0 where
  refused : ℕ → Fill
  filled : ℕ → Fill

-- One kind of records, and what stands at an address of the buffer then.
pub record ProcInfo (A : Type 0) : Type 0 where
  pub probe : Probe
  pub local_alloc : ℕ → Option ℕ
  pub fill : ℕ → ℕ → Fill
  pub size_at : ℕ → ℕ
  pub entry_at : ℕ → A

-- The fuel of a loop that is used up is `diverges`.
pub data Outcome (A : Type 0) : Type 0 where
  returned : A → Outcome A
  system_error : ℕ → Outcome A
  bad_alloc diverges : Outcome A

pub record Enumerator : Type 0 where
  pub base : Option ℕ
  pub current : Option ℕ
  pub remaining : ℕ

abbrev pub no_records : Enumerator
no_records = record { base = none; current = none; remaining = 0 }

abbrev pub insufficient_buffer : ℕ
insufficient_buffer = 122

-- The destructor. `LocalFree` of a null pointer does nothing.
unfoldable pub destroy : Enumerator → List ℕ → List ℕ
destroy e blocks = elim e.base [ none ↦ blocks | some b ↦ erase b blocks ]

module _ {A : Type 0} (sys : ProcInfo A) where
  unfoldable pub fill_buffer : ℕ → Fill → List ℕ → Outcome Enumerator × List ℕ
  fill_buffer base (refused error) blocks = (system_error error, blocks)
  fill_buffer base (filled size) blocks =
      (returned (record { base = some base; current = some base; remaining = size }), blocks)

  unfoldable pub allocate_buffer : ℕ → Option ℕ → List ℕ → Outcome Enumerator × List ℕ
  unfolding fill_buffer
  allocate_buffer size none blocks = (bad_alloc, blocks)
  allocate_buffer size (some base) blocks = fill_buffer base (sys.fill base size) (base ∷ blocks)

  unfoldable pub probe_result : Probe → List ℕ → Outcome Enumerator × List ℕ
  unfolding allocate_buffer
  probe_result succeeds blocks = (returned no_records, blocks)
  probe_result (fails error size) blocks =
      if error == insufficient_buffer
      then allocate_buffer size (sys.local_alloc size) blocks
      else (system_error error, blocks)

  -- The constructor.
  unfoldable pub procinfo_enumerator : List ℕ → Outcome Enumerator × List ℕ
  unfolding probe_result
  procinfo_enumerator blocks = probe_result sys.probe blocks

  -- `remaining_` is a `DWORD`.
  unfoldable pub next_from : Option ℕ → Enumerator → Enumerator
  next_from none e = e
  next_from (some a) e =
      let remaining = (e.remaining + 2 ^ 32 - sys.size_at a) % 2 ^ 32 in
      record e {
        current = if remaining == 0 then none else some ((a + sys.size_at a) % 2 ^ 64);
        remaining = remaining;
      }

  unfoldable pub next : Enumerator → Enumerator
  unfolding next_from
  next e = next_from e.current e

  module _ (body : A → CpuMap → CpuMap) where
    -- A loop over the records.
    unfoldable pub each : ℕ → Enumerator → CpuMap → Option CpuMap
    unfolding next
    each zero e m = none
    each (suc fuel) e m = elim e.current [
      | none ↦ some m
      | some a ↦ each fuel (next e) (body (sys.entry_at a) m)
    ]

    unfoldable pub scan_result : ℕ → CpuMap → Outcome Enumerator × List ℕ → Outcome CpuMap × List ℕ
    unfolding each destroy
    scan_result fuel m (returned e, blocks) = elim (each fuel e m) [
      | none ↦ (diverges, blocks)
      | some m' ↦ (returned m', destroy e blocks)
    ]
    scan_result fuel m (system_error x, blocks) = (system_error x, blocks)
    scan_result fuel m (bad_alloc, blocks) = (bad_alloc, blocks)
    scan_result fuel m (diverges, blocks) = (diverges, blocks)

    -- The enumerator of one loop, from its constructor to its destructor.
    unfoldable pub scan : ℕ → CpuMap → List ℕ → Outcome CpuMap × List ℕ
    unfolding scan_result procinfo_enumerator
    scan fuel m blocks = scan_result fuel m (procinfo_enumerator blocks)

unfoldable pub entries : Outcome CpuMap × List ℕ → Outcome (List Topo) × List ℕ
entries (returned m, blocks) = (returned (map (λ p. p.1) m), blocks)
entries (system_error x, blocks) = (system_error x, blocks)
entries (bad_alloc, blocks) = (bad_alloc, blocks)
entries (diverges, blocks) = (diverges, blocks)

unfoldable pub scan_caches : ℕ → ProcInfo Cache → Outcome CpuMap × List ℕ → Outcome CpuMap × List ℕ
unfolding scan
scan_caches fuel caches (returned m, blocks) = scan caches add_cache fuel m blocks
scan_caches fuel caches (system_error x, blocks) = (system_error x, blocks)
scan_caches fuel caches (bad_alloc, blocks) = (bad_alloc, blocks)
scan_caches fuel caches (diverges, blocks) = (diverges, blocks)

unfoldable pub cpu_topology :
    ℕ → ProcInfo NumaNode → ProcInfo Cache → List ℕ → Outcome (List Topo) × List ℕ
unfolding scan scan_caches entries
cpu_topology fuel nodes caches blocks =
    entries (scan_caches fuel caches (scan nodes add_node fuel [] blocks))
