-- ===== src/Worker/Simulation.antt =====
-- One operation on the pointer structure and the same on the buffer: submissions, the end of a job,
-- and closing. `Simulated` says that the replies agree and the ledger is kept.
use boost_job.Common.{
  ℕ, ◌≡◌, refl, ap, ◌∙◌, ◌≢◌, inl, inr, false, true, not, ◌&&◌, none, some, List, [], ◌∷◌, ◌++◌,
  arith, ◌==◌, Bool-cases, ℕ_discrete,
}
use boost_job.Work.{Ptr, null, work, Heap, write, SmartPtr, IsSmartPtr}
use boost_job.Work.Refs.{write_self, write_ne, drop_last}
use boost_job.Queue.{QueueStatus, opened, Mem, on_heap, close, close_}
use boost_job.Queue.Shape.{Cells, has, frame, has-append}
use boost_job.Worker.{Thread, Op, submits, finishes, closes, remove, submitted, finished, step}
use boost_job.Worker.Fifo.{Fifo, fifo_step}
use boost_job.Worker.Ledger.{Inv, Held-frame, Held-remove, has-remove, held_cell}
use boost_job.Worker.Submit.{submit_closed, submit_opened, Submitted}

abbrev pub jobs_of : Cells → List ℕ
jobs_of [] = []
jobs_of ((_, f) ∷ xs) = f ∷ jobs_of xs

pub jobs_of-append : (xs : Cells) (a f : ℕ) → jobs_of (xs ++ (a, f) ∷ []) ≡ jobs_of xs ++ f ∷ []
jobs_of-append [] a f = refl
jobs_of-append ((b, g) ∷ xs) a f = rw (jobs_of-append xs a f)

-- The buffer that a thread stands for, when its queue is the list `xs`.
abbrev pub view : Thread → Cells → Fifo
view t xs = record { state = t.state; jobs = jobs_of xs }

-- What an allocator returns: an address at which no object lives.
abbrev pub FreshOp : Op → Thread → Type 0
FreshOp (submits p f) t = (p ≢ null) × (t.heap p ≡ none)
FreshOp _ t = Unit

abbrev pub buffer : QueueStatus → Cells → Fifo
buffer st xs = record { state = st; jobs = jobs_of xs }

module _ {s : SmartPtr} (law : IsSmartPtr s) (t : Thread) (xs : Cells) (inv : Inv t xs) where
  open inv use {queued, held, apart, rest}

  running_ne : (a p : Ptr) → t.heap p ≡ none → has a t.running ≡ true → a ≢ p
  running_ne a p fresh i e =
      let (_, f, cell) = held_cell t.heap a t.running held i in cc (ap t.heap e)

  -- One operation in both worlds: the same reply, and the invariant and the view carried on.
  pub record Simulated (o : Op) (st : QueueStatus) : Type 0 where
    pub t' : Thread
    pub xs' : Cells
    pub runs : step s o t ≡ some ((fifo_step o (buffer st xs)).0, t')
    pub keeps : Inv t' xs'
    pub shows : view t' xs' ≡ (fifo_step o (buffer st xs)).1

  submits-Inv :
      (p f : ℕ) (m' : Mem) (ne : p ≢ null)
      → t.heap p ≡ none
      → Submitted law t.mem p f ne xs m'
      → Inv (record t { mem = m' }) (xs ++ (p, f) ∷ [])
  submits-Inv p f m' ne fresh r = record {
    queued = r.shape;
    held = Held-frame t.running held λ a i. r.spared a (running_ne a p fresh i) (unqueued a i);
    apart = λ a i. elim (ℕ_discrete a p) [
      | yes here ↦ ap (λ b. has b t.running) here ∙ unheld
      | no away ↦ apart a (ground (arith, has-append a xs ((p, f) ∷ [])))
    ];
    rest = λ a o o'.
        let away : a ≢ p = λ e. cc (ap (λ b. has b (xs ++ (p, f) ∷ [])) e, inside) in
        let out : has a xs ≡ false = ground (arith, has-append a xs ((p, f) ∷ [])) in
        r.spared a away out ∙ rest a out o';
  }
    where
      unqueued : (a : Ptr) → has a t.running ≡ true → has a xs ≡ false
      unqueued a i = ground (arith, apart a)

      unheld : has p t.running ≡ false
      unheld = ground (arith, running_ne p p fresh)

      inside : has p (xs ++ (p, f) ∷ []) ≡ true
      inside = rw (has-append p xs ((p, f) ∷ [])) (ground arith)

  pub submits-Simulated :
      (p f : ℕ) (st : QueueStatus)
      → t.state ≡ st
      → FreshOp (submits p f) t
      → Simulated (submits p f) st
  unfolding step submitted fifo_step
  submits-Simulated p f opened e (ne, fresh) =
      let (m', go, r) = submit_opened law t.mem p f ne xs queued fresh e in
      record {
        t' = record t { mem = m' };
        xs' = xs ++ (p, f) ∷ [];
        runs = rw go;
        keeps = submits-Inv p f m' ne fresh r;
        shows = λ i. record { state = (r.state ∙ e) i; jobs = jobs_of-append xs p f i };
      }
  submits-Simulated p f QueueStatus.closed e (ne, fresh) = record {
    t' = t;
    xs' = xs;
    runs = rw (submit_closed law t.mem p f ne e fresh);
    keeps = inv;
    shows = λ i. record { state = e i; jobs = jobs_of xs };
  }

  finishes-Inv :
      (p : Ptr)
      → has p t.running ≡ true
      → (g : Heap) → g p ≡ none
      → ((a : Ptr) → a ≢ p → g a ≡ t.heap a)
      → Inv (record t { mem = record t.mem { heap = g }; running = remove p t.running }) xs
  finishes-Inv p i g gone_p same = record {
    queued = record {
      at_head = queued.at_head;
      at_tail = queued.at_tail;
      linked = frame xs queued.linked (λ a j. same a (elsewhere a j)) (λ _ _. refl);
    };
    held =
        Held-frame (remove p t.running) (Held-remove t.heap p t.running held)
          λ a j. same a λ e. cc (has-remove a p t.running, off a e, j);
    apart = λ a j. rw (has-remove a p t.running, apart a j);
    rest = λ a o o'. elim (ℕ_discrete a p) [
      | yes here ↦ ap g here ∙ gone_p
      | no away ↦ same a away ∙ rest a o (ground (arith, has-remove a p t.running))
    ];
  }
    where
      elsewhere : (a : Ptr) → has a xs ≡ true → a ≢ p
      elsewhere a j e = cc (apart a j, ap (λ b. has b t.running) e, i)

      off : (a : Ptr) → a ≡ p → (has a t.running && not (a == p)) ≡ false
      off a e = ground arith

  pub finishes-Simulated : (p : Ptr) (st : QueueStatus) → t.state ≡ st → Simulated (finishes p) st
  unfolding step finished fifo_step on_heap
  finishes-Simulated p st e = elim (Bool-cases (has p t.running)) [
    | inl i ↦
        let (ne, f, cell) = held_cell t.heap p t.running held i in
        let g : Heap = write (write t.heap p (some (work 0 null f))) p none in
        record {
          t' = record t { mem = record t.mem { heap = g }; running = remove p t.running };
          xs' = xs;
          runs = rw (i, drop_last law t.heap p f ne cell);
          keeps =
              finishes-Inv p i g (write_self _ _ _)
                λ a away. write_ne _ _ _ _ away ∙ write_ne _ _ _ _ away;
          shows = λ i. record { state = e i; jobs = jobs_of xs };
        }
    | inr o ↦ record {
      t' = t;
      xs' = xs;
      runs = rw o;
      keeps = inv;
      shows = λ i. record { state = e i; jobs = jobs_of xs };
    }
  ]

  pub closes-Simulated : (st : QueueStatus) → Simulated closes st
  unfolding step fifo_step close close_
  closes-Simulated st = record {
    t' = record t { mem = close t.mem };
    xs' = xs;
    runs = refl;
    keeps = record {
      queued = record {
        at_head = queued.at_head;
        at_tail = queued.at_tail;
        linked = queued.linked;
      };
      held = held;
      apart = apart;
      rest = rest;
    };
    shows = refl;
  }
