-- ===== src/Topology/Linux/Scan.antt =====
-- `directory_iterator` and `cpu_topology`. The files are a parameter; `content`, the string that
-- every `std::getline` reads into, is passed along.
use boost_job.Common.{ℕ, Bool, true, ◌&&◌, Option, none, some, List, [], ◌∷◌, ◌==◌, if◌then◌else◌}
use boost_job.Text.{Bytes, Result, ok, ◌>>=◌, is_digit, stoul}
use boost_job.Topology.{Topo}
use boost_job.Topology.Ids.{erase}
use boost_job.Topology.Linux.Ranges.{u32, StringAlgorithms, ids_from_line}

-- /sys/devices/system/cpu/online, and cpuN/cache/indexK/shared_cpu_list.
pub data File : Type 0 where
  online : File
  shared_cpu_list : ℕ → ℕ → File

-- The first line of a file, `none` if it cannot be opened; the names of the entries of cpuN.
pub record Sysfs : Type 0 where
  pub line : File → Option Bytes
  pub entries : ℕ → List Bytes

-- `std::getline` leaves the string alone when the stream has failed to open.
unfoldable pub getline : Sysfs → File → Bytes → Bytes
getline fs file content = elim (fs.line file) [ none ↦ content | some s ↦ s ]

unfoldable pub all_digits : Bytes → Bool
all_digits [] = true
all_digits (c ∷ cs) = is_digit c && all_digits cs

unfoldable pub some_digits : Bytes → Option Bytes
unfolding all_digits
some_digits [] = none
some_digits (c ∷ cs) = if all_digits (c ∷ cs) then some (c ∷ cs) else none

-- `^node([0-9]+)$`: the text of the first group.
unfoldable pub match_node : Bytes → Option Bytes
unfolding some_digits
match_node (n ∷ o ∷ d ∷ e ∷ cs) =
    if (n == 110) && ((o == 111) && ((d == 100) && (e == 101))) then some_digits cs else none
match_node _ = none

-- `i_` as the names that are left, and the number in `idx_`.
pub record DirectoryIterator : Type 0 where
  pub rest : List Bytes
  pub idx : Option ℕ

unfoldable pub number : Option Bytes → Result (Option ℕ)
number none = ok none
number (some s) = stoul s >>= λ n. ok (some (u32 n))

unfoldable pub eval_ : Bytes → Result (Option ℕ)
unfolding number match_node
eval_ name = number (match_node name)

-- `while ( i_ != e_ && ! eval_( * i_) ) ++i_;`
unfoldable pub seek : List Bytes → Result DirectoryIterator
seek [] = ok (record { rest = []; idx = none })
seek (name ∷ names) = eval_ name >>= λ r. elim r [
  | none ↦ seek names
  | some n ↦ ok (record { rest = name ∷ names; idx = some n })
]

-- The loop body runs for the first match only, and writes `t.node_id`.
unfoldable pub read_node : List Bytes → Result (Option ℕ)
unfolding seek
read_node names = seek names >>= λ i. ok i.idx

module _ (al : StringAlgorithms) (fuel : ℕ) (fs : Sysfs) where
  -- One `shared_cpu_list`: the new `content`, and the processors but this one.
  unfoldable pub read_shared : ℕ → ℕ → Bytes → Result (List ℕ × Bytes)
  read_shared cpu index content =
      let line = getline fs (shared_cpu_list cpu index) content in
      ids_from_line al fuel line >>= λ ids. ok (erase cpu ids, line)

  -- The body of the loop over the processors.
  unfoldable pub read_cpu : ℕ → Bytes → Result (Topo × Bytes)
  read_cpu cpu content = read_node (fs.entries cpu) >>= λ node. read_shared cpu 1 content >>= λ l1.
      read_shared cpu 2 l1.1 >>= λ l2. read_shared cpu 3 l2.1 >>= λ l3. ok (
        record {
          node_id = node;
          processor_id = some cpu;
          l1_shared_with = l1.0;
          l2_shared_with = l2.0;
          l3_shared_with = l3.0;
        },
        l3.1,
      )

  unfoldable pub read_cpus : List ℕ → Bytes → Result (List Topo)
  read_cpus [] content = ok []
  read_cpus (cpu ∷ cpus) content =
      read_cpu cpu content >>= λ t. read_cpus cpus t.1 >>= λ ts. ok (t.0 ∷ ts)

  unfoldable pub from_online : Bytes → List ℕ → Result (List Topo)
  unfolding read_cpus
  from_online content [] = ok []
  from_online content (cpu ∷ cpus) = read_cpus (cpu ∷ cpus) content

  unfoldable pub cpu_topology : Result (List Topo)
  unfolding from_online
  cpu_topology =
      let content = getline fs online [] in ids_from_line al fuel content >>= from_online content
