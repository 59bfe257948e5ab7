-- ===== src/Pinning.antt =====
-- pin_thread of src/linux/pin.cpp, src/freebsd/pin.cpp, src/aix/pin.cpp, src/solaris/pin.cpp and
-- src/windows/pin.cpp; the build takes one of them. The calls of each system are parameters on a
-- state that the system keeps.
mod Laws
mod Bits
mod Exact
mod Tests
use boost_job.Common.{
  ℕ, ◌/◌, ◌%◌, ◌^◌, Bool, true, false, Option, none, some, List, [], ◌∷◌, ◌==◌, if◌then◌else◌,
}
use boost_job.Topology.Windows.{GroupAffinity, affinity_of}

-- No value, or the code of a `std::system_error`.
pub data Outcome : Type 0 where
  returned : Outcome
  system_error : ℕ → Outcome

-- A processor set of `sched.h` is a value.
pub record LinuxCalls (State : Type 0) : Type 0 where
  pub cpu_zero : List ℕ
  pub cpu_set : ℕ → List ℕ → List ℕ
  pub pthread_setaffinity_np : List ℕ → State → ℕ × State

-- The sets live at addresses.
pub record FreebsdCalls (State : Type 0) : Type 0 where
  pub cpuset_create : State → Option ℕ × State
  pub cpuset_zero : ℕ → State → State
  pub cpuset_set : ℕ → ℕ → State → State
  pub pthread_setaffinity_np : ℕ → State → ℕ × State
  pub cpuset_destroy : ℕ → State → State
  pub errno : State → ℕ

-- `bindprocessor` or `processor_bind` with its success, and the error code.
pub record BindCalls (State : Type 0) : Type 0 where
  pub bind : ℕ → State → Bool × State
  pub errno : State → ℕ

pub record WindowsCalls (State : Type 0) : Type 0 where
  pub set_thread_group_affinity : GroupAffinity → State → Bool × State
  pub last_error : State → ℕ

abbrev pub checked : ℕ → Outcome
checked err = if err == 0 then returned else system_error err

module _ {State : Type 0} where
  unfoldable pub pin_linux : LinuxCalls State → ℕ → State → Outcome × State
  pin_linux sys cpuid s =
      let (err, s') = sys.pthread_setaffinity_np (sys.cpu_set cpuid sys.cpu_zero) s in
      (checked err, s')

  -- Behind the creation of the set.
  unfoldable pub pin_with : FreebsdCalls State → ℕ → Option ℕ × State → Outcome × State
  pin_with sys cpuid (none, s) = (system_error (sys.errno s), s)
  pin_with sys cpuid (some set, s) =
      let (err, s') =
        sys.pthread_setaffinity_np set (sys.cpuset_set cpuid set (sys.cpuset_zero set s)) in
      (checked err, sys.cpuset_destroy set s')

  unfoldable pub pin_freebsd : FreebsdCalls State → ℕ → State → Outcome × State
  unfolding pin_with
  pin_freebsd sys cpuid s = pin_with sys cpuid (sys.cpuset_create s)

  unfoldable pub bind_result : (State → ℕ) → Bool × State → Outcome × State
  bind_result errno (true, s) = (returned, s)
  bind_result errno (false, s) = (system_error (errno s), s)

  unfoldable pub pin_aix : BindCalls State → ℕ → State → Outcome × State
  unfolding bind_result
  pin_aix sys cpuid s = bind_result sys.errno (sys.bind cpuid s)

  unfoldable pub pin_solaris : BindCalls State → ℕ → State → Outcome × State
  unfolding bind_result
  pin_solaris sys cpuid s = bind_result sys.errno (sys.bind cpuid s)

  unfoldable pub pin_windows : WindowsCalls State → ℕ → State → Outcome × State
  unfolding bind_result
  pin_windows sys cpuid s =
      bind_result sys.last_error (sys.set_thread_group_affinity (affinity_of cpuid) s)

-- The system that the library is built for.
pub data System (State : Type 0) : Type 0 where
  linux : LinuxCalls State → System State
  freebsd : FreebsdCalls State → System State
  aix solaris : BindCalls State → System State
  windows : WindowsCalls State → System State

unfoldable pub pin_thread : {State : Type 0} → System State → ℕ → State → Outcome × State
unfolding pin_linux pin_freebsd pin_aix pin_solaris pin_windows
pin_thread (linux sys) cpuid s = pin_linux sys cpuid s
pin_thread (freebsd sys) cpuid s = pin_freebsd sys cpuid s
pin_thread (aix sys) cpuid s = pin_aix sys cpuid s
pin_thread (solaris sys) cpuid s = pin_solaris sys cpuid s
pin_thread (windows sys) cpuid s = pin_windows sys cpuid s
