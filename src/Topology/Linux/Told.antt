-- ===== src/Topology/Linux/Told.antt =====
-- What `cpu_topology` tells when the files are in order, and what when some are missing.
use boost_job.Common.{
  ℕ, ◌^◌, ◌≤◌, ◌<◌, ◌≡◌, refl, sym, ap, ◌∙◌, ◌≢◌, Bool, true, not, ◌&&◌, none, some, List, [], ◌∷◌,
  arith, ◌==◌,
}
use boost_job.Text.{Bytes, ok, invalid_argument}
use boost_job.Text.Decimal.{decimal, AllDigits, decimal-AllDigits, decimal-ne-nil, stoul-decimal}
use boost_job.Topology.{Topo}
use boost_job.Topology.Ids.{erase, member, IsAscending, member-erase}
use boost_job.Topology.Linux.Ranges.{u32, StringAlgorithms, IsStringAlgorithms, ids_from_line}
use boost_job.Topology.Linux.RoundTrip.{
  Entry, print_list, named, Fits, ids_from_line-Yields, ids_from_line-empty,
}
use boost_job.Topology.Linux.Scan.{
  File, online, shared_cpu_list, Sysfs, getline, all_digits, some_digits, match_node, eval_, number,
  read_node, read_shared, read_cpu, read_cpus, from_online, cpu_topology,
}

getline_lem :
    (fs : Sysfs) (file : File) (content s : Bytes)
    → fs.line file ≡ some s
    → getline fs file content ≡ s
unfolding getline
getline_lem fs file content s e = rw (getline, e)

getline-missing :
    (fs : Sysfs) (file : File) (content : Bytes)
    → fs.line file ≡ none
    → getline fs file content ≡ content
unfolding getline
getline-missing fs file content e = rw (getline, e)

-- "node" and a number.
abbrev pub node_name : ℕ → Bytes
node_name n = 110 ∷ 111 ∷ 100 ∷ 101 ∷ decimal n

-- The first name that has this form tells `n`.
pub data HasNode (n : ℕ) : List Bytes → Type 0 where
  here : {names : List Bytes} → HasNode n (node_name n ∷ names)
  later :
      {name : Bytes} {names : List Bytes}
      → match_node name ≡ none
      → HasNode n names
      → HasNode n (name ∷ names)

some_digits-lem : (s : Bytes) → s ≢ [] → AllDigits s → some_digits s ≡ some s
unfolding some_digits all_digits
some_digits-lem [] ne d = absurd (ne refl)
some_digits-lem (c ∷ cs) ne (d, ds) = rw (d, go cs ds)
  where
    go : (cs : Bytes) → AllDigits cs → all_digits cs ≡ true
    go [] ds = refl
    go (b ∷ bs) (e, es) = rw e (go bs es)

match_node-node_name : (n : ℕ) → match_node (node_name n) ≡ some (decimal n)
unfolding match_node
match_node-node_name n = some_digits-lem (decimal n) (decimal-ne-nil n) (decimal-AllDigits n)

-- `read_node` finds the number of the first entry of that form.
read_node_lem :
    (n : ℕ) (names : List Bytes) → HasNode n names → n < 2 ^ 32 → read_node names ≡ ok (some n)
unfolding read_node eval_ number
read_node_lem n _ here small =
    let e : u32 n ≡ n = omega arith in
    rw (match_node-node_name n, stoul-decimal n (omega arith)) (ap (λ k. ok (some k)) e)
read_node_lem n _ (later no_match h) small = rw no_match (read_node_lem n _ h small)

-- A file that holds a list of processors.
pub record Lists (fs : Sysfs) (file : File) : Type 0 where
  pub head : Entry
  pub tail : List Entry
  pub fits : Fits (head ∷ tail)
  pub line : fs.line file ≡ some (print_list head tail)

abbrev pub told : {fs : Sysfs} {file : File} → Lists fs file → ℕ → Bool
told l = named (l.head ∷ l.tail)

-- The files of one processor.
pub record CpuFiles (fs : Sysfs) (cpu : ℕ) : Type 0 where
  pub node : ℕ
  pub node_fits : node < 2 ^ 32
  pub has_node : HasNode node (fs.entries cpu)
  pub l1 : Lists fs (shared_cpu_list cpu 1)
  pub l2 : Lists fs (shared_cpu_list cpu 2)
  pub l3 : Lists fs (shared_cpu_list cpu 3)

-- The members of `ids` are those that `p` tells, but `cpu` itself.
abbrev pub Others : ℕ → (ℕ → Bool) → List ℕ → Type 0
Others cpu p ids = (x : ℕ) → member x ids ≡ (not (x == cpu) && p x)

pub record Told (fs : Sysfs) (cpu : ℕ) (f : CpuFiles fs cpu) (t : Topo) : Type 0 where
  pub node : t.node_id ≡ some f.node
  pub cpu_id : t.processor_id ≡ some cpu
  pub l1 : Others cpu (told f.l1) t.l1_shared_with
  pub l2 : Others cpu (told f.l2) t.l2_shared_with
  pub l3 : Others cpu (told f.l3) t.l3_shared_with

module _ {al : StringAlgorithms} (law : IsStringAlgorithms al) (fuel : ℕ) (enough : 2 ^ 32 ≤ fuel)
    (fs : Sysfs) where
  read_shared-Others :
      (cpu index : ℕ) (content : Bytes) (l : Lists fs (shared_cpu_list cpu index))
      → (ids : List ℕ) × (read_shared al fuel fs cpu index content
          ≡ ok (ids, print_list l.head l.tail))
        × Others cpu (told l) ids
  unfolding read_shared
  read_shared-Others cpu index content l =
      let r = ids_from_line-Yields law fuel enough l.head l.tail l.fits in
      (
        erase cpu r.ids,
        rw (getline_lem fs (shared_cpu_list cpu index) content _ l.line, r.runs),
        λ x. member-erase x cpu r.ids r.ascending ∙ ap (λ b. not (x == cpu) && b) (r.members x),
      )

  -- One processor, whatever `content` held before.
  pub read_cpu-Told :
      (cpu : ℕ) (content : Bytes) (f : CpuFiles fs cpu)
      → (t : Topo) × (read_cpu al fuel fs cpu content ≡ ok (t, print_list f.l3.head f.l3.tail))
        × Told fs cpu f t
  unfolding read_cpu
  read_cpu-Told cpu content f =
      let (ids₁, go₁, o₁) = read_shared-Others cpu 1 content f.l1 in
      let (ids₂, go₂, o₂) = read_shared-Others cpu 2 (print_list f.l1.head f.l1.tail) f.l2 in
      let (ids₃, go₃, o₃) = read_shared-Others cpu 3 (print_list f.l2.head f.l2.tail) f.l3 in
      (
        record {
          node_id = some f.node;
          processor_id = some cpu;
          l1_shared_with = ids₁;
          l2_shared_with = ids₂;
          l3_shared_with = ids₃;
        },
        rw (read_node_lem f.node (fs.entries cpu) f.has_node f.node_fits, go₁, go₂, go₃),
        record { node = refl; cpu_id = refl; l1 = o₁; l2 = o₂; l3 = o₃ },
      )

  module _ (l : Lists fs online) (files : (cpu : ℕ) → told l cpu ≡ true → CpuFiles fs cpu) where
    -- One entry for each processor, in their order; each is one that the list of `online` names.
    abbrev pub AllTold : List ℕ → List Topo → Type 0
    AllTold [] [] = Unit {0}
    AllTold (cpu ∷ cpus) (t ∷ ts) =
        ((on : told l cpu ≡ true) × Told fs cpu (files cpu on) t) × AllTold cpus ts
    AllTold _ _ = ⊥

    read_cpus-AllTold :
        (cpus : List ℕ) (content : Bytes)
        → ((x : ℕ) → member x cpus ≡ true → told l x ≡ true)
        → (ts : List Topo) × (read_cpus al fuel fs cpus content ≡ ok ts) × AllTold cpus ts
    unfolding read_cpus
    read_cpus-AllTold [] content named_all = ([], refl, tt)
    read_cpus-AllTold (cpu ∷ cpus) content named_all =
        let on = named_all cpu (member-head cpu cpus) in
        let f = files cpu on in
        let (t, go, told_t) = read_cpu-Told cpu content f in
        let (ts, go_on, told_ts) =
          read_cpus-AllTold cpus (print_list f.l3.head f.l3.tail)
            (λ x m. named_all x (member-tail x cpu cpus m)) in
        (t ∷ ts, rw (go, go_on), ((on, told_t), told_ts))
      where
        member-head : (x : ℕ) (xs : List ℕ) → member x (x ∷ xs) ≡ true
        member-head x xs = ground arith

        member-tail : (x y : ℕ) (xs : List ℕ) → member x xs ≡ true → member x (y ∷ xs) ≡ true
        member-tail x y xs m = ground arith

    -- The processors that are online, in ascending order, each told in full.
    pub record Tells : Type 0 where
      pub cpus : List ℕ
      pub topo : List Topo
      pub runs : cpu_topology al fuel fs ≡ ok topo
      pub ascending : IsAscending cpus
      pub members : (x : ℕ) → member x cpus ≡ told l x
      pub entries : AllTold cpus topo

    tell :
        (cpus : List ℕ) (content : Bytes)
        → ((x : ℕ) → member x cpus ≡ true → told l x ≡ true)
        → (ts : List Topo) × (from_online al fuel fs content cpus ≡ ok ts) × AllTold cpus ts
    unfolding from_online
    tell [] content named_all = ([], refl, tt)
    tell (cpu ∷ cpus) content named_all = read_cpus-AllTold (cpu ∷ cpus) content named_all

    -- If the file of the online processors and the files of each processor that it names are there and
    -- hold printed lists, `cpu_topology` returns one entry for each online processor, in ascending
    -- order, with its node and the other processors of each cache.
    pub cpu_topology-Tells : Tells
    unfolding cpu_topology
    cpu_topology-Tells =
        let r = ids_from_line-Yields law fuel enough l.head l.tail l.fits in
        let (ts, go, each) = tell r.ids (print_list l.head l.tail) (λ x m. sym (r.members x) ∙ m) in
        record {
          cpus = r.ids;
          topo = ts;
          runs = rw (getline_lem fs online [] _ l.line, r.runs, go);
          ascending = r.ascending;
          members = r.members;
          entries = each;
        }

  shared_line :
      (cpu index : ℕ) (content line : Bytes) (ids : List ℕ)
      → getline fs (shared_cpu_list cpu index) content ≡ line
      → ids_from_line al fuel line ≡ ok ids
      → read_shared al fuel fs cpu index content ≡ ok (erase cpu ids, line)
  unfolding read_shared
  shared_line cpu index content line ids e go = rw (e, go)

  -- Where the file of the L3 cache cannot be opened, the line of the L2 cache is read once more, and
  -- the L3 list is the L2 list.
  pub read_cpu-no_l3 :
      (cpu node : ℕ) (content : Bytes)
      → node < 2 ^ 32
      → HasNode node (fs.entries cpu)
      → Lists fs (shared_cpu_list cpu 1)
      → (l : Lists fs (shared_cpu_list cpu 2)) → fs.line (shared_cpu_list cpu 3) ≡ none
      → (t : Topo) × (read_cpu al fuel fs cpu content ≡ ok (t, print_list l.head l.tail))
        × Others cpu (told l) t.l2_shared_with
        × (t.l3_shared_with ≡ t.l2_shared_with)
  unfolding read_cpu
  read_cpu-no_l3 cpu node content small has_node l1 l missing =
      let (ids₁, go₁, o₁) = read_shared-Others cpu 1 content l1 in
      let line = print_list l.head l.tail in
      let r = ids_from_line-Yields law fuel enough l.head l.tail l.fits in
      (
        record {
          node_id = some node;
          processor_id = some cpu;
          l1_shared_with = ids₁;
          l2_shared_with = erase cpu r.ids;
          l3_shared_with = erase cpu r.ids;
        },
        rw (
          read_node_lem node (fs.entries cpu) has_node small,
          go₁,
          shared_line cpu 2 _ line r.ids (getline_lem fs (shared_cpu_list cpu 2) _ line l.line)
              r.runs,
          shared_line cpu 3 line line r.ids
              (getline-missing fs (shared_cpu_list cpu 3) line missing) r.runs,
        ),
        λ x. member-erase x cpu r.ids r.ascending ∙ ap (λ b. not (x == cpu) && b) (r.members x),
        refl,
      )

  -- Where the list of the processors cannot be opened, the answer is an exception.
  pub cpu_topology-no_online : fs.line online ≡ none → cpu_topology al fuel fs ≡ invalid_argument
  unfolding cpu_topology
  cpu_topology-no_online missing =
      rw (getline-missing fs online [] missing, ids_from_line-empty law fuel)
