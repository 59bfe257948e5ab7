-- ===== src/Examples/Synchronize.antt =====
-- examples/synchronize.cpp: a job that waits for a shared variable and one that sets it. Each
-- stretch of code under the mutex is one transition; `cond.wait` gives the mutex up and ends the
-- transition, and a fiber may also wake without a notification.
mod Woken
mod Tests
use boost_job.Common.{ℕ, Bool, true, false, List, [], ◌∷◌, ◌++◌, ◌+◌, ◌==◌, ◌≡◌, not, if◌then◌else◌}

-- The first job: before its lock, in `cond.wait` with or without a notification, or at its end.
pub data Receiver : Type 0 where
  starting : Receiver
  asleep : Bool → Receiver
  ended : Receiver

-- The second job: before and after its sleep, or at its end.
pub data Sender : Type 0 where
  starting slept ended : Sender

-- The shared `i`, the jobs, and what each has printed of `i`.
pub record Shared : Type 0 where
  pub i : ℕ
  pub receiver : Receiver
  pub sender : Sender
  pub received : List ℕ
  pub sent : List ℕ

unfoldable pub begin : Shared
begin = record { i = 0; receiver = starting; sender = starting; received = []; sent = [] }

-- From the test of the predicate on, the mutex held.
unfoldable pub wait_or_print : Shared → Shared
wait_or_print s =
    if not (s.i == 0)
    then record s { receiver = ended; received = s.received ++ s.i ∷ [] }
    else record s { receiver = asleep false }

unfoldable pub sleep_for : Shared → Shared
sleep_for s = record s { sender = slept }

-- `notify_all` on the condition variable.
abbrev pub notified : Receiver → Receiver
notified (asleep b) = asleep true
notified starting = starting
notified ended = ended

-- From the lock to the unlock of the second job.
unfoldable pub set_and_notify : Shared → Shared
set_and_notify s = record s {
  i = 7;
  receiver = notified s.receiver;
  sender = ended;
  sent = s.sent ++ 7 ∷ [];
}

pub data Step (s : Shared) : Shared → Type 0 where
  receiver_starts : s.receiver ≡ starting → Step s (wait_or_print s)
  receiver_wakes : s.receiver ≡ asleep true → Step s (wait_or_print s)
  sender_sleeps : s.sender ≡ starting → Step s (sleep_for s)
  sender_sets : s.sender ≡ slept → Step s (set_and_notify s)

-- A wake-up without a notification.
pub data Spurious (s : Shared) : Shared → Type 0 where
  wakes : s.receiver ≡ asleep false → Spurious s (wait_or_print s)

pub data Reach : Shared → Type 0 where
  here : Reach begin
  next : {s t : Shared} → Reach s → Step s t → Reach t
  spurious : {s t : Shared} → Reach s → Spurious s t → Reach t

-- How many transitions the jobs are from their ends.
abbrev pub receiver_left : Receiver → ℕ
receiver_left starting = 2
receiver_left (asleep b) = 1
receiver_left ended = 0

abbrev pub sender_left : Sender → ℕ
sender_left starting = 2
sender_left slept = 1
sender_left ended = 0

abbrev pub steps_left : Shared → ℕ
steps_left s = receiver_left s.receiver + sender_left s.sender
