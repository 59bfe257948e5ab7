-- ===== src/Examples/Crew.antt =====
-- examples/dependent_jobs_mt.cpp: two worker threads with a static pool each. A job that waits for
-- its futures keeps its worker fiber.
use boost_job.Common.{
  ℕ, suc, ◌<◌, ◌≡◌, Bool, true, false, Option, none, some, List, [], ◌∷◌, ◌++◌, length, ◌==◌,
  if◌then◌else◌,
}
use boost_job.Examples.{ℤ, ◌+ℤ◌, checked, queued, waiting, result, fibonacci}

-- The worker thread of `( * topo)[0]` and that of `( * topo)[1]`.
pub data Home : Type 0 where
  first second : Home

-- A job in a queue, and one that has submitted a job and submits or waits for another. Jobs are
-- told apart by the order of their submission.
pub record Call : Type 0 where
  pub home : Home
  pub id : ℕ
  pub arg : ℤ

pub data Other : Type 0 where
  unsent : ℤ → Other
  sent : ℕ → Other

pub record Wait : Type 0 where
  pub home : Home
  pub id : ℕ
  pub f1 : ℕ
  pub f2 : Other

-- `args` lists the arguments of all submissions. The two queues stand in one list, which has the
-- jobs of each in their order.
pub record Crew : Type 0 where
  pub args : List ℤ
  pub queue : List Call
  pub waits : List Wait
  pub results : List (ℕ × ℤ)

-- `s.submit_coop( topo[0].processor_id, fibonacci, n, & s, & topo)` in `main`.
unfoldable pub submitted : ℤ → Crew
submitted n = record {
  args = n ∷ [];
  queue = record { home = first; id = 0; arg = n } ∷ [];
  waits = [];
  results = [];
}

abbrev pub value_of : ℕ → List (ℕ × ℤ) → Option ℤ
value_of i [] = none
value_of i ((j, v) ∷ rs) = if i == j then some v else value_of i rs

abbrev pub same_home : Home → Home → Bool
same_home first first = true
same_home second second = true
same_home _ _ = false

-- The fibers of a worker thread that hold a job which has submitted.
abbrev pub busy : Home → List Wait → ℕ
busy h [] = 0
busy h (w ∷ ws) = if same_home h w.home then suc (busy h ws) else busy h ws

-- Nobody in the list stands in the queue of this worker thread.
abbrev pub NoneOf : Home → List Call → Type 0
NoneOf h [] = Unit {0}
NoneOf h (c ∷ cs) = (same_home h c.home ≡ false) × NoneOf h cs

-- A job that returns at once.
unfoldable pub returns : Crew → Call → List Call → ℤ → Crew
returns s c rest v = record s { queue = rest; results = (c.id, v) ∷ s.results }

-- A job that submits its first job, and goes on to the second.
unfoldable pub splits : Crew → Call → List Call → ℤ → ℤ → Crew
splits s c rest a b = record s {
  args = s.args ++ a ∷ [];
  queue = rest ++ record { home = first; id = length s.args; arg = a } ∷ [];
  waits = record { home = c.home; id = c.id; f1 = length s.args; f2 = unsent b } ∷ s.waits;
}

unfoldable pub sends : Crew → List Wait → Wait → List Wait → ℤ → Crew
sends s before w after b = record s {
  args = s.args ++ b ∷ [];
  queue = s.queue ++ record { home = second; id = length s.args; arg = b } ∷ [];
  waits = before ++ record w { f2 = sent (length s.args) } ∷ after;
}

-- `f1.get() + f2.get()`, and the return.
unfoldable pub sums : Crew → Wait → List Wait → ℤ → Crew
sums s w rest z = record s { waits = rest; results = (w.id, z) ∷ s.results }

module _ (size : ℕ) where
  -- Pools of so many fibers: a fiber that is free takes the oldest job of its worker thread, and one
  -- that waits goes on when both results are there.
  pub data Step (s : Crew) : Crew → Type 0 where
    ends :
        (before after : List Call) (c : Call) (v : ℤ)
        → s.queue ≡ before ++ c ∷ after
        → NoneOf c.home before
        → busy c.home s.waits < size
        → fibonacci c.arg ≡ some (result v)
        → Step s (returns s c (before ++ after) v)
    submits :
        (before after : List Call) (c : Call) (a b : ℤ)
        → s.queue ≡ before ++ c ∷ after
        → NoneOf c.home before
        → busy c.home s.waits < size
        → fibonacci c.arg ≡ some (waiting (queued a) (queued b))
        → Step s (splits s c (before ++ after) a b)
    submits_other :
        (before after : List Wait) (w : Wait) (b : ℤ)
        → s.waits ≡ before ++ w ∷ after
        → w.f2 ≡ unsent b
        → Step s (sends s before w after b)
    resumes :
        (before after : List Wait) (w : Wait) (i : ℕ) (x y z : ℤ)
        → s.waits ≡ before ++ w ∷ after
        → w.f2 ≡ sent i
        → value_of w.f1 s.results ≡ some x
        → value_of i s.results ≡ some y
        → checked (x +ℤ y) ≡ some z
        → Step s (sums s w (before ++ after) z)

  pub data Reach (n : ℤ) : Crew → Type 0 where
    here : Reach n (submitted n)
    next : {s t : Crew} → Reach n s → Step s t → Reach n t
