-- ===== src/Pinning/Tests.antt =====
-- A FreeBSD with one address for sets, a Linux, and a Windows of one group.
use boost_job.Common.{
  ℕ, ◌≡◌, true, false, ◌/◌, ◌%◌, ◌==◌, ◌&&◌, refl, sym, ap, ◌∙◌, Option, none, some, List, [], ◌∷◌,
  arith,
}
use boost_job.Topology.Ids.{member}
use boost_job.Pinning.{
  returned, LinuxCalls, FreebsdCalls, WindowsCalls, pin_with, pin_freebsd, freebsd, pin_thread,
}
use boost_job.Topology.Windows.{has_bit, GroupAffinity}
use boost_job.Pinning.Laws.{View, Pinned, IsFreebsd, IsLinux, IsWindows, freebsd_calls}
use boost_job.Pinning.Exact.{pin_thread-Pinned}

record Kernel : Type 0 where
  running : List ℕ
  held : List ℕ
  live : List ℕ

abbrev view : View Kernel
view = record {
  may_run = λ s x. member x s.running;
  content = λ s a x. member x s.held;
  sets = λ s. s.live;
}

abbrev first_off : List ℕ → List ℕ
first_off [] = []
first_off (a ∷ rest) = rest

abbrev calls : FreebsdCalls Kernel
calls = record {
  cpuset_create = λ s. (some 4096, record s { live = 4096 ∷ s.live });
  cpuset_zero = λ a s. record s { held = [] };
  cpuset_set = λ c a s. record s { held = c ∷ s.held };
  pthread_setaffinity_np = λ a s. (0, record s { running = s.held });
  cpuset_destroy = λ a s. record s { live = first_off s.live };
  errno = λ s. 12;
}

abbrev address : Option ℕ × Kernel → ℕ
address (some a, s) = a
address (none, s) = 4096

calls-IsFreebsd : IsFreebsd view 1024 calls
calls-IsFreebsd = record {
  creates = λ s s' a e. (
    sym (ap (λ r. r.1.live) e) ∙ ap (λ b. b ∷ s.live) (same s a s' e),
    λ x. ap (λ r. member x r.1.running) (sym e),
  );
  creates_not = λ s s' e. absurd (never (ap (λ r. r.0) e));
  zeroes = λ a x s. (refl, record { affinity = λ x. refl; in_use = refl });
  adds = λ c a x s h. (refl, record { affinity = λ x. refl; in_use = refl });
  binds = λ a s e x. refl;
  keeps = λ a s ne x. absurd (ne refl);
  in_use = λ a s. refl;
  destroys = λ a s others e. (ap first_off e, λ x. refl);
}
  where
    same : (s : Kernel) (a : ℕ) (s' : Kernel) → calls.cpuset_create s ≡ (some a, s') → 4096 ≡ a
    same s a s' e = ap address e

    found : ℕ → Option ℕ
    found x = some x

    never : found 4096 ≡ none → ⊥
    never e = cc

abbrev start : Kernel
start = record { running = 0 ∷ 1 ∷ 2 ∷ []; held = []; live = [] }

pin_thread-Pinned_example : Pinned view 2 start (pin_thread (freebsd calls) 2 start)
pin_thread-Pinned_example =
    pin_thread-Pinned view 1024 (freebsd calls) 2 start (freebsd_calls calls calls-IsFreebsd)
      (omega arith)

pinned_to_two :
    pin_thread (freebsd calls) 2 start
    ≡ (returned, record { running = 2 ∷ []; held = 2 ∷ []; live = [] })
unfolding pin_thread pin_freebsd pin_with
pinned_to_two = refl

abbrev on_linux : LinuxCalls Kernel
on_linux = record {
  cpu_zero = [];
  cpu_set = λ c set. c ∷ set;
  pthread_setaffinity_np = λ set s. (0, record s { running = set });
}

on_linux-IsLinux : IsLinux view 1024 on_linux
on_linux-IsLinux = record {
  zeroes = λ x. refl;
  adds = λ c x set h. refl;
  binds = λ set s e x. refl;
  keeps = λ set s ne x. absurd (ne refl);
  in_use = λ set s. refl;
}

-- A thread with the group and the mask that it may run on.
abbrev groups : View GroupAffinity
groups = record {
  may_run = λ s x. (x / 64 == s.group) && has_bit s.mask (x % 64);
  content = λ s a x. false;
  sets = λ s. [];
}

abbrev on_windows : WindowsCalls GroupAffinity
on_windows = record { set_thread_group_affinity = λ a s. (true, a); last_error = λ s. 5 }

on_windows-IsWindows : IsWindows groups 64 on_windows
on_windows-IsWindows = record {
  small = omega arith;
  binds = λ a s e x. refl;
  keeps = λ a s e x. absurd (contradiction e);
  in_use = λ a s. refl;
}
  where
    contradiction : true ≡ false → ⊥
    contradiction e = cc
