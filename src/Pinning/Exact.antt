-- ===== src/Pinning/Exact.antt =====
-- `pin_thread` on every system.
use boost_job.Common.{
  ℕ, ◌/◌, ◌%◌, ◌^◌, ◌<◌, ◌≡◌, ◌≢◌, refl, sym, ap, subst, ◌∙◌, Bool, true, false, ◌&&◌, ◌||◌, Option,
  none, some, ◌==◌, if◌then◌else◌, ℕ_discrete, arith,
}
use boost_job.Topology.Windows.{affinity_of}
use boost_job.Pinning.{
  returned, system_error, checked, LinuxCalls, FreebsdCalls, WindowsCalls, pin_linux, pin_with,
  pin_freebsd, bind_result, pin_windows, System, pin_thread,
}
use boost_job.Pinning.Laws.{
  View, Pinned, IsLinux, IsFreebsd, IsWindows, IsSystem, linux_calls, freebsd_calls, windows_calls,
}
use boost_job.Pinning.Bits.{has_bit-pow, same_processor}

module _ {State : Type 0} (v : View State) (limit c : ℕ) (s : State) (small : c < limit) where
  -- After a call with an error number.
  checked-Pinned :
      (err : ℕ) (s' : State)
      → (err ≡ 0 → (x : ℕ) → v.may_run s' x ≡ (x == c))
      → (err ≢ 0 → (x : ℕ) → v.may_run s' x ≡ v.may_run s x)
      → v.sets s' ≡ v.sets s
      → Pinned v c s (checked err, s')
  checked-Pinned err s' good bad kept = elim (ℕ_discrete err 0) [
    | yes e ↦ subst (λ o. Pinned v c s (o, s')) (sym (zero_lem err e)) (good e, kept)
    | no ne ↦
        subst (λ o. Pinned v c s (o, s')) (sym (error_lem err ne))
          (record { affinity = bad ne; in_use = kept })
  ]
    where
      zero_lem : (err : ℕ) → err ≡ 0 → checked err ≡ returned
      zero_lem err e = ap checked e

      error_lem : (err : ℕ) → err ≢ 0 → checked err ≡ system_error err
      error_lem err ne = ap (λ b. if b then returned else system_error err) (nonzero err ne)
        where
          nonzero : (err : ℕ) → err ≢ 0 → (err == 0) ≡ false
          nonzero err ne = ground arith

  or_false : (b : Bool) → (b || false) ≡ b
  or_false true = refl
  or_false false = refl

  linux-Pinned : (sys : LinuxCalls State) → IsLinux v limit sys → Pinned v c s (pin_linux sys c s)
  unfolding pin_linux
  linux-Pinned sys law =
      let set = sys.cpu_set c sys.cpu_zero in
      let r = sys.pthread_setaffinity_np set s in
      checked-Pinned r.0 r.1
        (λ e x.
          law.binds set s e x
          ∙ law.adds c x sys.cpu_zero small
          ∙ ap (λ b. (x == c) || b) (law.zeroes x)
          ∙ or_false (x == c))
        (λ ne x. law.keeps set s ne x) (law.in_use set s)

  bind_result-Pinned :
      (errno : State → ℕ) (r : Bool × State)
      → (r.0 ≡ true → (x : ℕ) → v.may_run r.1 x ≡ (x == c))
      → (r.0 ≡ false → (x : ℕ) → v.may_run r.1 x ≡ v.may_run s x)
      → v.sets r.1 ≡ v.sets s
      → Pinned v c s (bind_result errno r)
  unfolding bind_result
  bind_result-Pinned errno (true, s') good bad kept = (good refl, kept)
  bind_result-Pinned errno (false, s') good bad kept = record { affinity = bad refl; in_use = kept }

  windows-Pinned :
      (sys : WindowsCalls State) → IsWindows v limit sys → Pinned v c s (pin_windows sys c s)
  unfolding pin_windows affinity_of
  windows-Pinned sys law =
      let a = affinity_of c in
      bind_result-Pinned sys.last_error (sys.set_thread_group_affinity a s)
        (λ e x.
          law.binds a s e x
          ∙ ap (λ b. (x / 64 == c / 64 % 2 ^ 16) && b)
              (has_bit-pow (c % 64) (x % 64) (omega arith) (omega arith))
          ∙ same_processor x c (omega (arith, small, law.small)))
        (λ e x. law.keeps a s e x) (law.in_use a s)

  freebsd-Pinned :
      (sys : FreebsdCalls State) (r : Option ℕ × State)
      → IsFreebsd v limit sys
      → sys.cpuset_create s ≡ r
      → Pinned v c s (pin_with sys c r)
  unfolding pin_with
  freebsd-Pinned sys (none, t) law e = law.creates_not s t e
  freebsd-Pinned sys (some a, t) law e =
      let (grows, same) = law.creates s t a e in
      let t₁ = sys.cpuset_zero a t in
      let t₂ = sys.cpuset_set c a t₁ in
      let r = sys.pthread_setaffinity_np a t₂ in
      let z = (law.zeroes a 0 t).1 in
      let k = (law.adds c a 0 t₁ small).1 in
      let (back, unmoved) =
        law.destroys a r.1 (v.sets s) (law.in_use a t₂ ∙ k.in_use ∙ z.in_use ∙ grows) in
      checked-Pinned r.0 (sys.cpuset_destroy a r.1)
        (λ e x.
          unmoved x
          ∙ law.binds a t₂ e x
          ∙ (law.adds c a x t₁ small).0
          ∙ ap (λ b. (x == c) || b) (law.zeroes a x t).0
          ∙ or_false (x == c))
        (λ ne x. unmoved x ∙ law.keeps a t₂ ne x ∙ k.affinity x ∙ z.affinity x ∙ same x) back

-- On a Linux, FreeBSD or Windows whose calls are lawful, for a processor below what its sets or
-- groups have room for, `pin_thread` either returns, and then the thread may run on that processor
-- and on no other, or it throws, and then the thread may run where it could before; and no processor
-- set stays allocated.
pub pin_thread-Pinned :
    {State : Type 0} (v : View State) (limit : ℕ) (sys : System State) (c : ℕ) (s : State)
    → IsSystem v limit sys
    → c < limit
    → Pinned v c s (pin_thread sys c s)
unfolding pin_thread pin_freebsd
pin_thread-Pinned v limit _ c s (linux_calls sys law) small = linux-Pinned v limit c s small sys law
pin_thread-Pinned v limit _ c s (freebsd_calls sys law) small =
    freebsd-Pinned v limit c s small sys (sys.cpuset_create s) law refl
pin_thread-Pinned v limit _ c s (windows_calls sys law) small =
    windows-Pinned v limit c s small sys law
