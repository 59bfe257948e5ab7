-- ===== src/Examples/Crowded.antt =====
-- The example with more jobs than fibers.
use boost_job.Common.{
  ℕ, suc, ◌+◌, ◌*◌, ◌≤◌, ◌<◌, ◌≡◌, ◌∙◌, refl, sym, ap, subst, Option, none, some, List, [], ◌∷◌,
  ◌++◌, length, arith, All, All-append, All-taken, All-put, All_map, total, total_taken,
}
use boost_job.Examples.{ℤ, pos, negsuc, queued, waiting, result, fibonacci}
use boost_job.Examples.Crew.{
  Other, unsent, sent, sends, submits_other, first, second, Call, Wait, Crew, submitted, value_of,
  busy, returns, splits, Step, ends, submits, resumes, Reach, here, next,
}
use boost_job.Examples.Calls.{returns_lem, splits_lem}
use boost_job.Examples.Fibers.{busy_total, busy_room, busy_less, busy-sent, length-sent}

-- With so many jobs that wait, a job in a queue has at most so much less to compute.
abbrev IsDeepArg : ℕ → ℕ → ℤ → Type 0
IsDeepArg n w (pos m) = (m ≤ 46) × (n ≤ m + 2 * w)
IsDeepArg n w (negsuc m) = ⊥

abbrev IsDeep : ℕ → ℕ → Call → Type 0
IsDeep n w c = IsDeepArg n w c.arg

IsDeepArg-more : (n w v : ℕ) (z : ℤ) → w ≤ v → IsDeepArg n w z → IsDeepArg n v z
IsDeepArg-more n w v (pos m) le (small, deep) = (small, omega arith)
IsDeepArg-more n w v (negsuc m) le h = h

-- What a job has still to submit.
abbrev IsDeepOther : ℕ → ℕ → Other → Type 0
IsDeepOther n w (unsent b) = IsDeepArg n w b
IsDeepOther n w (sent i) = Unit {0}

abbrev IsDeepWait : ℕ → ℕ → Wait → Type 0
IsDeepWait n k w = IsDeepOther n k w.f2

IsDeepOther-more : (n w v : ℕ) (o : Other) → w ≤ v → IsDeepOther n w o → IsDeepOther n v o
IsDeepOther-more n w v (unsent b) le h = IsDeepArg-more n w v b le h
IsDeepOther-more n w v (sent i) le h = tt

-- How far the jobs that wait have come.
abbrev phase : Other → ℕ
phase (unsent b) = 1
phase (sent i) = 2

abbrev wait_phase : Wait → ℕ
wait_phase w = phase w.f2

unfoldable pub phases : Crew → ℕ
phases s = total wait_phase s.waits

record Stuck (size n : ℕ) (s : Crew) : Type 0 where
  no_result : s.results ≡ []
  deep : All (IsDeep n (length s.waits)) s.queue
  others : All (IsDeepWait n (length s.waits)) s.waits
  room_first : busy first s.waits ≤ size
  room_second : busy second s.waits ≤ size

submitted-Stuck : (size n : ℕ) → n ≤ 46 → Stuck size n (submitted (pos n))
unfolding submitted
submitted-Stuck size n small = record {
  no_result = refl;
  deep = ((small, omega arith), tt);
  others = tt;
  room_first = omega arith;
  room_second = omega arith;
}

some_value : {A : Type 0} → A → Option A → A
some_value d none = d
some_value d (some a) = a

never_found : (i : ℕ) (rs : List (ℕ × ℤ)) (x : ℤ) → rs ≡ [] → value_of i rs ≡ some x → ⊥
never_found i [] x none_yet e = cc
never_found i (r ∷ rs) x none_yet e = cc

-- A queued job has at least three more to compute, so it submits two.
too_deep :
    (size n w : ℕ) (z : ℤ) (v : ℤ)
    → 4 * size < n
    → w < 2 * size
    → IsDeepArg n w z
    → fibonacci z ≡ some (result v)
    → ⊥
too_deep size n w (pos m) v many free (small, deep) e =
    let (low, _) = returns_lem m v (omega arith) small e in omega arith
too_deep size n w (negsuc m) v many free h e = h

deeper :
    (size n w : ℕ) (z a b : ℤ)
    → 4 * size < n
    → w < 2 * size
    → IsDeepArg n w z
    → fibonacci z ≡ some (waiting (queued a) (queued b))
    → IsDeepArg n (suc w) a × IsDeepArg n (suc w) b
deeper size n w (pos m) a b many free (small, deep) e =
    let (k, three, ea, eb) = splits_lem m a b (omega arith) small e in
    (
      subst (IsDeepArg n (suc w)) (sym ea) (omega arith, omega arith),
      subst (IsDeepArg n (suc w)) (sym eb) (omega arith, omega arith),
    )
deeper size n w (negsuc m) a b many free h e = absurd h

abbrev Filled : ℕ → ℕ → Crew → Crew → Type 0
Filled size n s t = Stuck size n t × (phases t ≡ suc (phases s))

step-Filled :
    (size n : ℕ) (s t : Crew) → 4 * size < n → Stuck size n s → Step size s t → Filled size n s t
unfolding returns splits sends phases total
step-Filled size n s _ many h (ends before after c v e order free run) =
    let (taken, _) =
      All-taken (IsDeep n (length s.waits)) before c after
        (subst (All (IsDeep n (length s.waits))) e h.deep) in
    absurd (
      too_deep size n (length s.waits) c.arg v many
        (busy_less size c.home s.waits free h.room_first h.room_second) taken run)
step-Filled size n s _ many h (submits before after c a b e order free run) =
    let (taken, others) =
      All-taken (IsDeep n (length s.waits)) before c after
        (subst (All (IsDeep n (length s.waits))) e h.deep) in
    let (da, db) =
      deeper size n (length s.waits) c.arg a b many
        (busy_less size c.home s.waits free h.room_first h.room_second) taken run in
    let (x, y) =
      busy_room size (record { home = c.home; id = c.id; f1 = length s.args; f2 = unsent b })
        s.waits free h.room_first h.room_second in
    let k = length s.waits in
    (
      record {
        no_result = h.no_result;
        deep =
            All-append (IsDeep n (suc k)) (before ++ after) _
              (All_map (IsDeep n k) (IsDeep n (suc k)) (before ++ after)
                (λ d. IsDeepArg-more n k (suc k) d.arg (omega arith)) others)
              (da, tt);
        others = (
          db,
          All_map (IsDeepWait n k) (IsDeepWait n (suc k)) s.waits
              (λ v. IsDeepOther-more n k (suc k) v.f2 (omega arith)) h.others,
        );
        room_first = x;
        room_second = y;
      },
      omega arith,
    )
step-Filled size n s _ many h (submits_other before after w b e unsent_b) =
    let w' : Wait = record w { f2 = sent (length s.args) } in
    let same = length-sent before after w w'.f2 ∙ sym (ap length e) in
    let (other, others) =
      All-taken (IsDeepWait n (length s.waits)) before w after
        (subst (All (IsDeepWait n (length s.waits))) e h.others) in
    let db = subst (IsDeepOther n (length s.waits)) unsent_b other in
    (
      record {
        no_result = h.no_result;
        deep =
            subst
              (λ k.
                All (IsDeep n k)
                  (s.queue ++ record { home = second; id = length s.args; arg = b } ∷ []))
              (sym same) (All-append (IsDeep n (length s.waits)) s.queue _ h.deep (db, tt));
        others =
            subst (λ k. All (IsDeepWait n k) (before ++ w' ∷ after)) (sym same)
              (All-put (IsDeepWait n (length s.waits)) before w' after tt others);
        room_first =
            omega (arith, busy-sent first before after w w'.f2, ap (busy first) e, h.room_first);
        room_second =
            omega (arith, busy-sent second before after w w'.f2, ap (busy second) e, h.room_second);
      },
      omega (
        arith,
        total_taken wait_phase before w after,
        total_taken wait_phase before w' after,
        ap (total wait_phase) e,
        ap phase unsent_b,
      ),
    )
step-Filled size n s _ many h (resumes before after w i x y z e sent_i left right run) =
    absurd (never_found w.f1 s.results x h.no_result left)

Reach-Stuck :
    (size n : ℕ) (s : Crew) → 4 * size < n → n ≤ 46 → Reach size (pos n) s → Stuck size n s
Reach-Stuck size n _ many small here = submitted-Stuck size n small
Reach-Stuck size n _ many small (next {s = s} {t = t} r step) =
    (step-Filled size n s t many (Reach-Stuck size n s many small r) step).0

at_most : (o : Other) → phase o ≤ 2
at_most (unsent b) = omega arith
at_most (sent i) = omega arith

two_each : (ws : List Wait) → total wait_phase ws ≤ 2 * length ws
unfolding total
two_each [] = omega arith
two_each (w ∷ ws) = omega (arith, at_most w.f2, two_each ws)

-- For a number up to 46 that is more than four times the fibers of a pool, in any order in which
-- the two worker threads run the jobs of dependent_jobs_mt.cpp: no job ever returns, the job of
-- `main` among them, every step is the first or the second submission of a job that then keeps
-- its fiber, and at most all fibers of the two pools are kept, so that the steps come to an end.
pub Reach_stalls :
    (size n : ℕ) (s : Crew)
    → 4 * size < n
    → n ≤ 46
    → Reach size (pos n) s
    → ((i : ℕ) → value_of i s.results ≡ none)
      × ((t : Crew) → Step size s t → phases t ≡ suc (phases s))
      × (length s.waits ≤ 2 * size)
      × (phases s ≤ 4 * size)
unfolding phases
Reach_stalls size n s many small r =
    let h = Reach-Stuck size n s many small r in
    (
      λ i. ap (value_of i) h.no_result,
      λ t step. (step-Filled size n s t many h step).1,
      omega (arith, busy_total s.waits, h.room_first, h.room_second),
      omega (arith, busy_total s.waits, h.room_first, h.room_second, two_each s.waits),
    )
