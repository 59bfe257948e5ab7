-- ===== src/Examples/Synchronize/Tests.antt =====
-- The first job waits, wakes once in vain, and the second has slept.
use boost_job.Common.{◌<◌, ◌≡◌, ◌⊎◌, refl, false, []}
use boost_job.Examples.Synchronize.{
  Shared, asleep, slept, begin, wait_or_print, sleep_for, Step, receiver_starts, sender_sleeps,
  Spurious, wakes, Reach, here, next, spurious, steps_left,
}
use boost_job.Examples.Synchronize.Woken.{Moves, finished, Reach_receives}

abbrev both_sleep : Shared
both_sleep = record { i = 0; receiver = asleep false; sender = slept; received = []; sent = [] }

both_sleep-Reach : Reach both_sleep
unfolding begin wait_or_print sleep_for
both_sleep-Reach =
    spurious (next (next here (receiver_starts refl)) (sender_sleeps refl)) (wakes refl)

Reach_receives_example :
    ((t : Shared) → Step both_sleep t → steps_left t < steps_left both_sleep)
    × ((t : Shared) → Spurious both_sleep t → t ≡ both_sleep)
    × ((both_sleep ≡ finished) ⊎ Moves both_sleep)
Reach_receives_example = Reach_receives both_sleep both_sleep-Reach
