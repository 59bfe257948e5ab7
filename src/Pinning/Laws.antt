-- ===== src/Pinning/Laws.antt =====
-- What the calls promise: which processors the thread may run on, and which sets are allocated.
use boost_job.Common.{
  ℕ, ◌/◌, ◌%◌, ◌^◌, ◌<◌, ◌≤◌, ◌≡◌, ◌≢◌, Bool, true, false, ◌&&◌, ◌||◌, some, none, List, ◌∷◌, ◌==◌,
}
use boost_job.Topology.Ids.{member}
use boost_job.Topology.Windows.{has_bit, GroupAffinity}
use boost_job.Pinning.{
  Outcome, returned, system_error, LinuxCalls, FreebsdCalls, WindowsCalls, System, linux, freebsd,
  windows,
}

-- The processors that the calling thread may run on, those in the set at an address, and the
-- addresses of the sets in use.
pub record View (State : Type 0) : Type 0 where
  pub may_run : State → ℕ → Bool
  pub content : State → ℕ → ℕ → Bool
  pub sets : State → List ℕ

module _ {State : Type 0} (v : View State) where
  pub record Kept (s s' : State) : Type 0 where
    pub affinity : (x : ℕ) → v.may_run s' x ≡ v.may_run s x
    pub in_use : v.sets s' ≡ v.sets s

  -- A thread that is pinned to the processor and nothing left behind, or an error and no change.
  abbrev pub Pinned : ℕ → State → Outcome × State → Type 0
  Pinned c s (returned, s') = ((x : ℕ) → v.may_run s' x ≡ (x == c)) × (v.sets s' ≡ v.sets s)
  Pinned c s (system_error e, s') = Kept s s'

  -- A set has room for so many processors.
  pub record IsLinux (limit : ℕ) (sys : LinuxCalls State) : Type 0 where
    pub zeroes : (x : ℕ) → member x sys.cpu_zero ≡ false
    pub adds :
        (c x : ℕ) (set : List ℕ)
        → c < limit
        → member x (sys.cpu_set c set) ≡ ((x == c) || member x set)
    pub binds :
        (set : List ℕ) (s : State)
        → (sys.pthread_setaffinity_np set s).0 ≡ 0
        → (x : ℕ) → v.may_run (sys.pthread_setaffinity_np set s).1 x ≡ member x set
    pub keeps :
        (set : List ℕ) (s : State)
        → (sys.pthread_setaffinity_np set s).0 ≢ 0
        → (x : ℕ) → v.may_run (sys.pthread_setaffinity_np set s).1 x ≡ v.may_run s x
    pub in_use : (set : List ℕ) (s : State) → v.sets (sys.pthread_setaffinity_np set s).1 ≡ v.sets s

  pub record IsFreebsd (limit : ℕ) (sys : FreebsdCalls State) : Type 0 where
    pub creates :
        (s s' : State) (a : ℕ)
        → sys.cpuset_create s ≡ (some a, s')
        → (v.sets s' ≡ a ∷ v.sets s) × ((x : ℕ) → v.may_run s' x ≡ v.may_run s x)
    pub creates_not : (s s' : State) → sys.cpuset_create s ≡ (none, s') → Kept s s'
    pub zeroes :
        (a x : ℕ) (s : State)
        → (v.content (sys.cpuset_zero a s) a x ≡ false) × Kept s (sys.cpuset_zero a s)
    pub adds :
        (c a x : ℕ) (s : State)
        → c < limit
        → (v.content (sys.cpuset_set c a s) a x ≡ ((x == c) || v.content s a x))
          × Kept s (sys.cpuset_set c a s)
    pub binds :
        (a : ℕ) (s : State)
        → (sys.pthread_setaffinity_np a s).0 ≡ 0
        → (x : ℕ) → v.may_run (sys.pthread_setaffinity_np a s).1 x ≡ v.content s a x
    pub keeps :
        (a : ℕ) (s : State)
        → (sys.pthread_setaffinity_np a s).0 ≢ 0
        → (x : ℕ) → v.may_run (sys.pthread_setaffinity_np a s).1 x ≡ v.may_run s x
    pub in_use : (a : ℕ) (s : State) → v.sets (sys.pthread_setaffinity_np a s).1 ≡ v.sets s
    pub destroys :
        (a : ℕ) (s : State) (others : List ℕ)
        → v.sets s ≡ a ∷ others
        → (v.sets (sys.cpuset_destroy a s) ≡ others)
          × ((x : ℕ) → v.may_run (sys.cpuset_destroy a s) x ≡ v.may_run s x)

  -- A group is a 16-bit number, and has 64 processors.
  pub record IsWindows (limit : ℕ) (sys : WindowsCalls State) : Type 0 where
    pub small : limit ≤ 2 ^ 22
    pub binds :
        (a : GroupAffinity) (s : State)
        → (sys.set_thread_group_affinity a s).0 ≡ true
        → (x : ℕ)
        → v.may_run (sys.set_thread_group_affinity a s).1 x
          ≡ ((x / 64 == a.group) && has_bit a.mask (x % 64))
    pub keeps :
        (a : GroupAffinity) (s : State)
        → (sys.set_thread_group_affinity a s).0 ≡ false
        → (x : ℕ) → v.may_run (sys.set_thread_group_affinity a s).1 x ≡ v.may_run s x
    pub in_use :
        (a : GroupAffinity) (s : State) → v.sets (sys.set_thread_group_affinity a s).1 ≡ v.sets s

  -- The systems whose calls take a set of processors.
  pub data IsSystem (limit : ℕ) : System State → Type 0 where
    linux_calls : (sys : LinuxCalls State) → IsLinux limit sys → IsSystem limit (linux sys)
    freebsd_calls : (sys : FreebsdCalls State) → IsFreebsd limit sys → IsSystem limit (freebsd sys)
    windows_calls : (sys : WindowsCalls State) → IsWindows limit sys → IsSystem limit (windows sys)
