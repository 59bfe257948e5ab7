-- ===== src/Topology/Linux/Tests.antt =====
-- The readers of src/linux/topology.cpp at concrete files.
use boost_job.Common.{
  List, sym, ap, subst, ltb, true, ◌==◌, if◌then◌else◌, ℕ, ◌-◌, ◌^◌, ◌≡◌, refl, Option, none, some,
  [], ◌∷◌, arith,
}
use boost_job.Topology.{Topo}
use boost_job.Text.{Bytes, ok, diverges, read_digits, stoul}
use boost_job.Topology.Ids.{insert}
use boost_job.Topology.Linux.Ranges.{insert_range, insert_entry, insert_entries, ids_from_line}
use boost_job.Topology.Linux.RoundTrip.{
  one, span, print_list, named, Yields, ids_from_line-Yields, insert_range-diverges,
}
use boost_job.Topology.Linux.Scan.{read_cpu, File, online, shared_cpu_list, Sysfs, match_node}
use boost_job.Topology.Linux.Told.{
  node_name, HasNode, here, later, Lists, told, CpuFiles, Others, Tells, cpu_topology-Tells,
  read_cpu-no_l3,
}
use boost_job.Topology.Linux.Sample.{plain, plain-IsStringAlgorithms}

-- "0-2,8"
line_ids : ids_from_line plain 9 (48 ∷ 45 ∷ 50 ∷ 44 ∷ 56 ∷ []) ≡ ok (0 ∷ 1 ∷ 2 ∷ 8 ∷ [])
unfolding ids_from_line insert_entries insert_entry insert_range plain stoul read_digits insert
line_ids = refl

-- "3-1" names nothing.
line_reversed : ids_from_line plain 9 (51 ∷ 45 ∷ 49 ∷ []) ≡ ok []
unfolding ids_from_line insert_entries insert_entry insert_range plain stoul read_digits insert
line_reversed = refl

ids_from_line-Yields_example :
    Yields
      (ids_from_line plain (2 ^ 32) (print_list (span 0 2) (one 8 ∷ [])))
      (named (span 0 2 ∷ one 8 ∷ []))
ids_from_line-Yields_example =
    ids_from_line-Yields plain-IsStringAlgorithms (2 ^ 32) (omega arith) (span 0 2) (one 8 ∷ [])
      (omega arith)

insert_range-diverges_example : insert_range 5 (2 ^ 32 - 3) (2 ^ 32 - 1) [] ≡ diverges
insert_range-diverges_example = insert_range-diverges 5 (2 ^ 32 - 3) [] (omega arith)

-- Processors 0 and 1 are online, on node 1, and share every cache. No other processor has files.
abbrev both : Bytes
both = print_list (span 0 1) []

abbrev line_of_two : File → Option Bytes
line_of_two online = some both
line_of_two (shared_cpu_list cpu index) = if ltb cpu 2 then some both else none

abbrev node_1 : List Bytes
node_1 = (111 ∷ []) ∷ node_name 1 ∷ []

abbrev files : Sysfs
files = record { line = line_of_two; entries = λ cpu. if ltb cpu 2 then node_1 else [] }

abbrev no_files : Sysfs
no_files = record { line = λ _. none; entries = λ _. [] }

online_list : Lists files online
online_list = record { head = span 0 1; tail = []; fits = omega arith; line = refl }

module _ (cpu : ℕ) (on : ltb cpu 2 ≡ true) where
  cache_list : (index : ℕ) → Lists files (shared_cpu_list cpu index)
  cache_list index = record {
    head = span 0 1;
    tail = [];
    fits = omega arith;
    line = ap (λ b. if b then some both else none) on;
  }

  cpu_files : CpuFiles files cpu
  unfolding match_node
  cpu_files = record {
    node = 1;
    node_fits = omega arith;
    has_node = subst (HasNode 1) (sym (ap (λ b. if b then node_1 else []) on)) (later refl here);
    l1 = cache_list 1;
    l2 = cache_list 2;
    l3 = cache_list 3;
  }

two_online : (cpu : ℕ) → told online_list cpu ≡ true → ltb cpu 2 ≡ true
unfolding online_list
two_online cpu e = ground arith

cpu_topology-Tells_example :
    Tells plain-IsStringAlgorithms
      (2 ^ 32)
      (omega arith)
      files
      online_list
      (λ cpu e. cpu_files cpu (two_online cpu e))
cpu_topology-Tells_example =
    cpu_topology-Tells plain-IsStringAlgorithms (2 ^ 32) (omega arith) files online_list
      (λ cpu e. cpu_files cpu (two_online cpu e))

-- The same with no L3 cache.
abbrev line_of : File → Option Bytes
line_of online = some both
line_of (shared_cpu_list cpu index) = if index == 3 then none else some both

abbrev no_l3 : Sysfs
no_l3 = record { line = line_of; entries = λ _. (111 ∷ []) ∷ node_name 1 ∷ [] }

l1_list : Lists no_l3 (shared_cpu_list 0 1)
l1_list = record { head = span 0 1; tail = []; fits = omega arith; line = refl }

l2_list : Lists no_l3 (shared_cpu_list 0 2)
l2_list = record { head = span 0 1; tail = []; fits = omega arith; line = refl }

read_cpu-no_l3_example :
    (t : Topo) × (read_cpu plain (2 ^ 32) no_l3 0 [] ≡ ok (t, both))
    × Others 0 (told l2_list) t.l2_shared_with
    × (t.l3_shared_with ≡ t.l2_shared_with)
unfolding l2_list match_node
read_cpu-no_l3_example =
    read_cpu-no_l3 plain-IsStringAlgorithms (2 ^ 32) (omega arith) no_l3 0 1 [] (omega arith)
      (later refl here) l1_list l2_list refl
