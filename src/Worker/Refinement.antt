-- ===== src/Worker/Refinement.antt =====
-- The pointer structure and its reference counts implement the first-in first-out buffer.
use boost_job.Common.{
  ℕ, ◌≡◌, refl, sym, ap, subst, ◌∙◌, ◌≢◌, false, Option, none, some, List, [], ◌∷◌, arith,
}
use boost_job.Work.{Ptr, null, SmartPtr, IsSmartPtr}
use boost_job.Work.Refs.{load_lem}
use boost_job.Queue.{QueueStatus, opened, success, Mem, returned, pop, init}
use boost_job.Queue.Shape.{Cells, has, has-head, Linked, ne_of_has}
use boost_job.Queue.Pop.{Popped}
use boost_job.Queue.Branches.{Pops, pop-Pops}
use boost_job.Worker.{Thread, Op, submits, takes, finishes, closes, Reply, taken, step, run, start}
use boost_job.Worker.Fifo.{Fifo, fifo_step, fifo_run}
use boost_job.Worker.Ledger.{no_refs, Inv, Held-frame}
use boost_job.Worker.Simulation.{
  jobs_of, view, FreshOp, Simulated, submits-Simulated, finishes-Simulated, closes-Simulated,
}

takes-Inv :
    (t : Thread) (a f : ℕ) (ys : Cells) (m' : Mem)
    → Inv t ((a, f) ∷ ys)
    → Popped no_refs t.mem a f ys m'
    → Inv (record t { mem = m'; running = (a, f) ∷ t.running }) ys
takes-Inv t a f ys m' inv r = record {
  queued = r.shape;
  held = (
    linked.0,
    r.item,
    free,
    Held-frame t.running inv.held λ b i. r.spared b λ e. cc (ap (λ c. has c t.running) e, free, i),
  );
  apart = λ b i.
      let away : b ≢ a = λ e. ne_of_has ys linked.2 i (sym e) in
      let old : has b t.running ≡ false = inv.apart b (ground arith) in ground arith;
  rest = λ b o o'.
      let away : b ≢ a = ground arith in r.spared b away ∙ inv.rest b (ground arith) (ground arith);
}
  where
    linked : Linked no_refs t.heap ((a, f) ∷ ys)
    linked = inv.queued.linked

    free : has a t.running ≡ false
    free = inv.apart a (has-head a f ys)

module _ {s : SmartPtr} (law : IsSmartPtr s) (t : Thread) where
  starts-Simulated :
      (st : QueueStatus) (a f : ℕ) (ys : Cells) (inv : Inv t ((a, f) ∷ ys))
      → t.state ≡ st
      → (m' : Mem) → pop s null t.mem ≡ returned (success, a) m'
      → Popped no_refs t.mem a f ys m'
      → Simulated law t ((a, f) ∷ ys) inv takes st
  unfolding step taken fifo_step
  starts-Simulated opened a f ys inv e m' go r = record {
    t' = record t { mem = m'; running = (a, f) ∷ t.running };
    xs' = ys;
    runs = rw (go, load_lem m'.heap a inv.queued.linked.0, r.item);
    keeps = takes-Inv t a f ys m' inv r;
    shows = λ i. record { state = (r.state ∙ e) i; jobs = jobs_of ys };
  }
  starts-Simulated QueueStatus.closed a f ys inv e m' go r = record {
    t' = record t { mem = m'; running = (a, f) ∷ t.running };
    xs' = ys;
    runs = rw (go, load_lem m'.heap a inv.queued.linked.0, r.item);
    keeps = takes-Inv t a f ys m' inv r;
    shows = λ i. record { state = (r.state ∙ e) i; jobs = jobs_of ys };
  }

  takes-Simulated :
      (st : QueueStatus) (xs : Cells) (inv : Inv t xs)
      → t.state ≡ st
      → Pops law no_refs t.mem st xs (pop s null t.mem)
      → Simulated law t xs inv takes st
  unfolding step taken fifo_step
  takes-Simulated opened [] inv e p = record {
    t' = t;
    xs' = [];
    runs = rw p;
    keeps = inv;
    shows = λ i. record { state = e i; jobs = [] };
  }
  takes-Simulated QueueStatus.closed [] inv e p = record {
    t' = t;
    xs' = [];
    runs = rw p;
    keeps = inv;
    shows = λ i. record { state = e i; jobs = [] };
  }
  takes-Simulated opened ((a, f) ∷ ys) inv e (m', go, r) =
      starts-Simulated opened a f ys inv e m' go r
  takes-Simulated QueueStatus.closed ((a, f) ∷ ys) inv e (m', go, r) =
      starts-Simulated QueueStatus.closed a f ys inv e m' go r

  -- Every operation runs, replies as the buffer does, and keeps the ledger.
  pub step-Simulated :
      (xs : Cells) (inv : Inv t xs) (o : Op) → FreshOp o t → Simulated law t xs inv o t.state
  step-Simulated xs inv (submits p f) fresh = submits-Simulated law t xs inv p f t.state refl fresh
  step-Simulated xs inv takes fresh =
      takes-Simulated t.state xs inv refl (pop-Pops law no_refs t.mem xs inv.queued)
  step-Simulated xs inv (finishes p) fresh = finishes-Simulated law t xs inv p t.state refl
  step-Simulated xs inv closes fresh = closes-Simulated law t xs inv t.state

-- The allocator's contract along a run.
abbrev pub AllFresh : SmartPtr → List Op → Thread → Type 0
AllFresh s [] t = Unit
AllFresh s (o ∷ os) t =
    FreshOp o t × elim (step s o t) [ none ↦ Unit | some (_, t') ↦ AllFresh s os t' ]

module _ {s : SmartPtr} (law : IsSmartPtr s) where
  -- What a run from `t` yields, against the run of the buffer that `t` stands for.
  pub record Refines (os : List Op) (t : Thread) (q : Fifo) : Type 0 where
    pub end : Thread
    pub xs : Cells
    pub runs : run s os t ≡ some ((fifo_run os q).0, end)
    pub keeps : Inv end xs
    pub shows : view end xs ≡ (fifo_run os q).1

  run-Refines :
      (os : List Op) (t : Thread) (xs : Cells) (q : Fifo)
      → Inv t xs
      → view t xs ≡ q
      → AllFresh s os t
      → Refines os t q
  unfolding run fifo_run
  run-Refines [] t xs q inv e fresh = record {
    end = t;
    xs = xs;
    runs = refl;
    keeps = inv;
    shows = e;
  }
  run-Refines (o ∷ os) t xs q inv e (here, later) =
      let now = step-Simulated law t xs inv o here in
      let rest =
        run-Refines os now.t' now.xs' (fifo_step o q).1 now.keeps
          (now.shows ∙ ap (λ b. (fifo_step o b).1) e) (rw now.runs at later) in
      record {
        end = rest.end;
        xs = rest.xs;
        runs = rw (now.runs, rest.runs, e);
        keeps = rest.keeps;
        shows = rest.shows;
      }

  start-Inv : Inv start []
  unfolding start init
  start-Inv = record {
    queued = record { at_head = refl; at_tail = refl; linked = tt };
    held = tt;
    apart = λ p i. refl;
    rest = λ p o o'. refl;
  }

  -- From the start of a worker thread with a lawful smart pointer, any sequence of submissions of
  -- fresh items, takes, ends of jobs and closes is defined, replies what a first-in first-out buffer
  -- replies, and ends in a state that stands for the buffer's.
  pub start-Refines :
      (os : List Op) → AllFresh s os start → Refines os start (record { state = opened; jobs = [] })
  unfolding start init
  start-Refines os fresh = run-Refines os start [] _ start-Inv refl fresh

drained :
    (t : Thread) (xs : Cells)
    → Inv t xs
    → t.head ≡ null
    → t.running ≡ []
    → (p : Ptr) → t.heap p ≡ none
drained t [] inv empty idle p = inv.rest p refl (ap (has p) idle)
drained t ((a, f) ∷ xs) inv empty idle p =
    absurd (inv.queued.linked.0 (sym inv.queued.at_head ∙ empty))

-- After any such sequence, if the queue is empty and no fiber holds a job, the heap is empty: every
-- work item has been given back.
pub start-no_leak :
    {s : SmartPtr} (law : IsSmartPtr s) (os : List Op) (rs : List Reply) (end : Thread)
    → AllFresh s os start
    → run s os start ≡ some (rs, end)
    → end.head ≡ null
    → end.running ≡ []
    → (p : Ptr) → end.heap p ≡ none
start-no_leak law os rs end fresh go empty idle =
    let r = start-Refines law os fresh in
    let same : r.end ≡ end = ap (λ o. end_of o) (sym r.runs ∙ go) in
    drained end r.xs (subst (λ t. Inv t r.xs) same r.keeps) empty idle
  where
    end_of : Option (List Reply × Thread) → Thread
    end_of none = end
    end_of (some (_, t)) = t
