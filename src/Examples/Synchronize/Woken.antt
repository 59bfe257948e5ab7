-- ===== src/Examples/Synchronize/Woken.antt =====
-- The first job receives what the second has set.
use boost_job.Common.{
  ℕ, ◌<◌, ◌≡◌, ◌⊎◌, inl, inr, refl, sym, ap, subst, ◌∙◌, Bool, true, false, List, [], ◌∷◌, arith,
}
use boost_job.Examples.Synchronize.{
  Receiver, starting, asleep, ended, Sender, slept, Shared, begin, wait_or_print, sleep_for,
  set_and_notify, Step, receiver_starts, receiver_wakes, sender_sleeps, sender_sets, Spurious,
  wakes, Reach, here, next, spurious, steps_left,
}

-- The states there are: before the variable is set, the second job's sleep over or not, and after.
data Stage : Type 0 where
  fresh waits : Bool → Stage
  late woken done : Stage

abbrev sender_at : Bool → Sender
sender_at false = starting
sender_at true = slept

abbrev unset : Receiver → Bool → Shared
unset r b = record { i = 0; receiver = r; sender = sender_at b; received = []; sent = [] }

abbrev been_set : Receiver → List ℕ → Shared
been_set r out = record { i = 7; receiver = r; sender = ended; received = out; sent = 7 ∷ [] }

unfoldable state_at : Stage → Shared
state_at (fresh b) = unset starting b
state_at (waits b) = unset (asleep false) b
state_at late = been_set starting []
state_at woken = been_set (asleep true) []
state_at done = been_set ended (7 ∷ [])

abbrev Onward : Stage → Shared → Type 0
Onward g t = (h : Stage) × (t ≡ state_at h) × (steps_left t < steps_left (state_at g))

step-Onward : (g : Stage) (t : Shared) → Step (state_at g) t → Onward g t
unfolding state_at wait_or_print sleep_for set_and_notify
step-Onward (fresh b) _ (receiver_starts e) = (waits b, refl, omega arith)
step-Onward late _ (receiver_starts e) = (done, refl, omega arith)
step-Onward (waits b) _ (receiver_starts e) = absurd cc
step-Onward woken _ (receiver_starts e) = absurd cc
step-Onward done _ (receiver_starts e) = absurd cc
step-Onward woken _ (receiver_wakes e) = (done, refl, omega arith)
step-Onward (fresh b) _ (receiver_wakes e) = absurd cc
step-Onward (waits b) _ (receiver_wakes e) = absurd cc
step-Onward late _ (receiver_wakes e) = absurd cc
step-Onward done _ (receiver_wakes e) = absurd cc
step-Onward (fresh false) _ (sender_sleeps e) = (fresh true, refl, omega arith)
step-Onward (fresh true) _ (sender_sleeps e) = absurd cc
step-Onward (waits false) _ (sender_sleeps e) = (waits true, refl, omega arith)
step-Onward (waits true) _ (sender_sleeps e) = absurd cc
step-Onward late _ (sender_sleeps e) = absurd cc
step-Onward woken _ (sender_sleeps e) = absurd cc
step-Onward done _ (sender_sleeps e) = absurd cc
step-Onward (fresh true) _ (sender_sets e) = (late, refl, omega arith)
step-Onward (fresh false) _ (sender_sets e) = absurd cc
step-Onward (waits true) _ (sender_sets e) = (woken, refl, omega arith)
step-Onward (waits false) _ (sender_sets e) = absurd cc
step-Onward late _ (sender_sets e) = absurd cc
step-Onward woken _ (sender_sets e) = absurd cc
step-Onward done _ (sender_sets e) = absurd cc

-- A wake-up without a notification finds the variable unset, and waits again.
Spurious-same : (g : Stage) (t : Shared) → Spurious (state_at g) t → t ≡ state_at g
unfolding state_at wait_or_print
Spurious-same (waits b) _ (wakes e) = refl
Spurious-same (fresh b) _ (wakes e) = absurd cc
Spurious-same late _ (wakes e) = absurd cc
Spurious-same woken _ (wakes e) = absurd cc
Spurious-same done _ (wakes e) = absurd cc

Reach-state_at : (s : Shared) → Reach s → (g : Stage) × (s ≡ state_at g)
unfolding state_at begin
Reach-state_at _ here = (fresh false, refl)
Reach-state_at _ (next {s = s} {t = t} r step) =
    let (g, e) = Reach-state_at s r in
    let (h, e', _) = step-Onward g t (subst (λ s. Step s t) e step) in (h, e')
Reach-state_at _ (spurious {s = s} {t = t} r step) =
    let (g, e) = Reach-state_at s r in (g, Spurious-same g t (subst (λ s. Spurious s t) e step))

abbrev pub Moves : Shared → Type 0
Moves s = (t : Shared) × Step s t

progress : (g : Stage) → (g ≡ done) ⊎ Moves (state_at g)
unfolding state_at
progress (fresh false) = inr (_, sender_sleeps refl)
progress (fresh true) = inr (_, sender_sets refl)
progress (waits false) = inr (_, sender_sleeps refl)
progress (waits true) = inr (_, sender_sets refl)
progress late = inr (_, receiver_starts refl)
progress woken = inr (_, receiver_wakes refl)
progress done = inl refl

abbrev pub finished : Shared
finished = been_set ended (7 ∷ [])

-- In any state that the two jobs of synchronize.cpp reach, in any order and with any number of
-- wake-ups that nobody asked for: a transition of a job that is not such a wake-up brings the jobs
-- closer to their ends, such a wake-up changes nothing, and one job can make a transition unless
-- both have ended, the variable is 7, and each has printed 7 once.
pub Reach_receives :
    (s : Shared)
    → Reach s
    → ((t : Shared) → Step s t → steps_left t < steps_left s)
      × ((t : Shared) → Spurious s t → t ≡ s)
      × ((s ≡ finished) ⊎ Moves s)
unfolding state_at
Reach_receives s r =
    let (g, e) = Reach-state_at s r in
    (
      λ t step.
          subst (λ n. steps_left t < n) (ap steps_left (sym e))
            (step-Onward g t (subst (λ s. Step s t) e step)).2,
      λ t step. Spurious-same g t (subst (λ s. Spurious s t) e step) ∙ sym e,
      elim (progress g) [
        | inl final ↦ inl (e ∙ ap state_at final)
        | inr moves ↦ inr (subst Moves (sym e) moves)
      ],
    )
