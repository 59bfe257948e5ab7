-- ===== src/Queue/Branches.antt =====
-- What each operation of the queue does on each branch.
use boost_job.Common.{ℕ, ◌+◌, ◌^◌, ◌<◌, ◌≡◌, refl, ◌≢◌, false, true, some, [], ◌∷◌, arith}
use boost_job.Work.{Ptr, null, work, SmartPtr, IsSmartPtr}
use boost_job.Queue.{
  QueueStatus, opened, QueueOpStatus, success, CvStatus, no_timeout, notify_one, Mem, Outcome,
  returned, waiting, logic_error, status_is_closed, is_closed_, is_empty_, on_heap, or_undefined,
  push_and_notify_, push_, push, take_head, pop, value_pop, try_pop, pop_wait_until,
  pop_wait_resume,
}
use boost_job.Queue.Shape.{Cells, has, IsQueue}
use boost_job.Queue.Push.{Pushed, push_tail_-Pushed}
use boost_job.Queue.Pop.{Popped, pop_head_-Popped}

-- A closed queue refuses the item and nothing changes.
pub push_closed :
    (s : SmartPtr) (m : Mem) (a : Ptr)
    → m.state ≡ QueueStatus.closed
    → push s a m ≡ returned QueueOpStatus.closed m
unfolding push push_ is_closed_ status_is_closed
push_closed s m a e = rw e

-- Tests on the state, by equations.
is_closed__opened : (m : Mem) → m.state ≡ opened → is_closed_ m ≡ false
unfolding is_closed_ status_is_closed
is_closed__opened m e = rw e

is_closed__closed : (m : Mem) → m.state ≡ QueueStatus.closed → is_closed_ m ≡ true
unfolding is_closed_ status_is_closed
is_closed__closed m e = rw e

module _ {ext : Ptr → ℕ} {m : Mem} where
  is_empty__nil : IsQueue ext m [] → is_empty_ m ≡ true
  unfolding is_empty_
  is_empty__nil q = rw q.at_head

  is_empty__cons : {a f : ℕ} {xs : Cells} → IsQueue ext m ((a, f) ∷ xs) → is_empty_ m ≡ false
  unfolding is_empty_
  is_empty__cons q = rw q.at_head (ground (arith, q.linked.0))

module _ {s : SmartPtr} (law : IsSmartPtr s) (ext : Ptr → ℕ) (m : Mem) where
  -- An open queue takes the item at its end and wakes one waiter.
  pub push_opened :
      (xs : Cells) (a f : ℕ)
      → IsQueue ext m xs
      → m.state ≡ opened
      → a ≢ null
      → has a xs ≡ false
      → m.heap a ≡ some (work (ext a) null f)
      → ext a + 2 < 2 ^ 64
      → (m' : Mem) × (push s a m
          ≡ returned success (record m' { signals = notify_one ∷ m.signals }))
        × Pushed ext m xs a f m'
  unfolding push push_ push_and_notify_ or_undefined
  push_opened xs a f q e ne out cell room =
      let (m', run, p) = push_tail_-Pushed law ext m xs a f q ne out cell room in
      (m', rw (is_closed__opened m e, run) (rw p.signals), p)

  abbrev pub Pushes : QueueStatus → Cells → ℕ → ℕ → Outcome QueueOpStatus → Type 0
  Pushes opened xs a f o =
      (m' : Mem) × (o ≡ returned success (record m' { signals = notify_one ∷ m.signals }))
      × Pushed ext m xs a f m'
  Pushes QueueStatus.closed xs a f o = o ≡ returned QueueOpStatus.closed m

  push_case :
      (st : QueueStatus) (xs : Cells) (a f : ℕ)
      → m.state ≡ st
      → IsQueue ext m xs
      → a ≢ null
      → has a xs ≡ false
      → m.heap a ≡ some (work (ext a) null f)
      → ext a + 2 < 2 ^ 64
      → Pushes st xs a f (push s a m)
  push_case opened xs a f e q ne out cell room = push_opened xs a f q e ne out cell room
  push_case QueueStatus.closed xs a f e q ne out cell room = push_closed s m a e

  -- An open queue takes a fresh item at its end and sends one signal; a closed one answers `closed`
  -- and nothing changes.
  pub push-Pushes :
      (xs : Cells) (a f : ℕ)
      → IsQueue ext m xs
      → a ≢ null
      → has a xs ≡ false
      → m.heap a ≡ some (work (ext a) null f)
      → ext a + 2 < 2 ^ 64
      → Pushes m.state xs a f (push s a m)
  push-Pushes xs a f q ne out cell room = push_case m.state xs a f refl q ne out cell room

  -- The branch of the code that `va = pop_head_()` ends.
  abbrev pub Takes : ℕ → ℕ → Cells → Outcome (QueueOpStatus × Ptr) → Type 0
  Takes a f xs o = (m' : Mem) × (o ≡ returned (success, a) m') × Popped ext m a f xs m'

  take_head-Takes :
      (a f : ℕ) (xs : Cells) → IsQueue ext m ((a, f) ∷ xs) → Takes a f xs (take_head s null m)
  unfolding take_head or_undefined on_heap
  take_head-Takes a f xs q =
      let (m', run, p) = pop_head_-Popped law ext m a f xs q in
      (m', rw (run, law.drop_null m'.heap), p)

  -- `pop`: an item if there is one, closed or not; else the wait, or the answer `closed`.
  abbrev pub Pops : QueueStatus → Cells → Outcome (QueueOpStatus × Ptr) → Type 0
  Pops opened [] o = o ≡ waiting m
  Pops QueueStatus.closed [] o = o ≡ returned (QueueOpStatus.closed, null) m
  Pops _ ((a, f) ∷ xs) o = Takes a f xs o

  abbrev pub TryPops : QueueStatus → Cells → Outcome (QueueOpStatus × Ptr) → Type 0
  TryPops opened [] o = o ≡ returned (QueueOpStatus.empty, null) m
  TryPops QueueStatus.closed [] o = o ≡ returned (QueueOpStatus.closed, null) m
  TryPops _ ((a, f) ∷ xs) o = Takes a f xs o

  abbrev pub ValuePops : QueueStatus → Cells → Outcome Ptr → Type 0
  ValuePops opened [] o = o ≡ waiting m
  ValuePops QueueStatus.closed [] o = o ≡ logic_error m
  ValuePops _ ((a, f) ∷ xs) o = (m' : Mem) × (o ≡ returned a m') × Popped ext m a f xs m'

  pop_case :
      (st : QueueStatus) (xs : Cells) → m.state ≡ st → IsQueue ext m xs → Pops st xs (pop s null m)
  unfolding pop
  pop_case opened [] e q = rw (is_closed__opened m e, is_empty__nil q)
  pop_case QueueStatus.closed [] e q = rw (is_closed__closed m e, is_empty__nil q)
  pop_case opened ((a, f) ∷ xs) e q =
      rw (is_closed__opened m e, is_empty__cons q) (take_head-Takes a f xs q)
  pop_case QueueStatus.closed ((a, f) ∷ xs) e q =
      rw (is_closed__closed m e, is_empty__cons q) (take_head-Takes a f xs q)

  try_pop_case :
      (st : QueueStatus) (xs : Cells)
      → m.state ≡ st
      → IsQueue ext m xs
      → TryPops st xs (try_pop s null m)
  unfolding try_pop
  try_pop_case opened [] e q = rw (is_closed__opened m e, is_empty__nil q)
  try_pop_case QueueStatus.closed [] e q = rw (is_closed__closed m e, is_empty__nil q)
  try_pop_case opened ((a, f) ∷ xs) e q =
      rw (is_closed__opened m e, is_empty__cons q) (take_head-Takes a f xs q)
  try_pop_case QueueStatus.closed ((a, f) ∷ xs) e q =
      rw (is_closed__closed m e, is_empty__cons q) (take_head-Takes a f xs q)

  value_pop_case :
      (st : QueueStatus) (xs : Cells)
      → m.state ≡ st
      → IsQueue ext m xs
      → ValuePops st xs (value_pop s m)
  unfolding value_pop or_undefined
  value_pop_case opened [] e q = rw (is_closed__opened m e, is_empty__nil q)
  value_pop_case QueueStatus.closed [] e q = rw (is_closed__closed m e, is_empty__nil q)
  value_pop_case opened ((a, f) ∷ xs) e q =
      let (m', run, p) = pop_head_-Popped law ext m a f xs q in
      (m', rw (is_closed__opened m e, is_empty__cons q, run), p)
  value_pop_case QueueStatus.closed ((a, f) ∷ xs) e q =
      let (m', run, p) = pop_head_-Popped law ext m a f xs q in
      (m', rw (is_closed__closed m e, is_empty__cons q, run), p)

  module _ (xs : Cells) (q : IsQueue ext m xs) where
    -- `pop` hands out the oldest item, also of a closed queue; on an empty queue it waits while the
    -- queue is open and answers `closed` otherwise, and then changes nothing.
    pub pop-Pops : Pops m.state xs (pop s null m)
    pop-Pops = pop_case m.state xs refl q

    -- `try_pop` hands out the oldest item and never waits: on an empty queue it answers `empty`, or
    -- `closed` once the queue is closed, and changes nothing.
    pub try_pop-TryPops : TryPops m.state xs (try_pop s null m)
    try_pop-TryPops = try_pop_case m.state xs refl q

    -- `value_pop` does as `pop`, but for an empty closed queue, where it throws.
    pub value_pop-ValuePops : ValuePops m.state xs (value_pop s m)
    value_pop-ValuePops = value_pop_case m.state xs refl q

    -- A timed wait that ends by a signal goes on as `pop` does; one that times out changes nothing.
    pub pop_wait_resume-Pops :
        (pop_wait_resume s CvStatus.timeout null m ≡ returned (QueueOpStatus.timeout, null) m)
        × Pops m.state xs (pop_wait_resume s no_timeout null m)
    unfolding pop_wait_resume pop_wait_until pop
    pop_wait_resume-Pops = (refl, pop-Pops)

    -- On a well-formed queue, open or closed, empty or not: `pop`, `try_pop`, `value_pop` and a timed
    -- wait that was signalled hand out the oldest item if there is one, also of a closed queue. On
    -- an empty open queue they wait, but for `try_pop`, which answers `empty`; on an empty closed one
    -- they answer `closed`, but for `value_pop`, which throws. Without an item, and when a timed
    -- wait times out, nothing changes.
    pub takes_all_branches :
        Pops m.state xs (pop s null m)
        × TryPops m.state xs (try_pop s null m)
        × ValuePops m.state xs (value_pop s m)
        × Pops m.state xs (pop_wait_resume s no_timeout null m)
        × (pop_wait_resume s CvStatus.timeout null m ≡ returned (QueueOpStatus.timeout, null) m)
    takes_all_branches = (
      pop-Pops, try_pop-TryPops, value_pop-ValuePops, pop_wait_resume-Pops.1,
      pop_wait_resume-Pops.0,
    )
