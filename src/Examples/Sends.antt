-- ===== src/Examples/Sends.antt =====
-- The second submission of a job, and its end.
use boost_job.Common.{
  ℕ, suc, ◌<◌, ◌≡◌, inl, inr, refl, sym, ap, subst, ◌∙◌, some, List, [], ◌∷◌, ◌++◌, length,
  get_elem?-lt-length, arith, All, All_map, All-taken, All-put, HasKey, HasKey-taken,
  HasKey-append_left, HasKey-append_right, total, total_taken,
}
use boost_job.Examples.{ℤ, pos, ◌+ℤ◌, checked}
use boost_job.Examples.Reference.{fib, fib_int}
use boost_job.Examples.Equal.{sum_lem}
use boost_job.Examples.Crew.{unsent, sent, sends, second, Call, Wait, Crew, value_of, sums}
use boost_job.Examples.Known.{
  get_elem?-append, get_elem?-append_last, IsOther, IsArg, IsWait, IsResult, IsWait-append,
  IsResult-append, value_of_lem, value_of_new, value_of_more,
}
use boost_job.Examples.Fits.{
  other_fibers, other_steps, wait_fibers, wait_steps, call_fibers, call_steps, crew_left, call_id,
  wait_id, Fits,
}
use boost_job.Examples.Moves.{put_call, one_more, place_lem}

-- A waiter takes the place of another with its number.
HasKey-put :
    (i : ℕ) (before after : List Wait) (w v : Wait)
    → w.id ≡ v.id
    → HasKey wait_id i (before ++ w ∷ after)
    → HasKey wait_id i (before ++ v ∷ after)
HasKey-put i [] after w v e (inl this) = inl (sym e ∙ this)
HasKey-put i [] after w v e (inr other) = inr other
HasKey-put i (u ∷ before) after w v e (inl this) = inl this
HasKey-put i (u ∷ before) after w v e (inr other) = inr (HasKey-put i before after w v e other)

pub sends-Fits :
    (n : ℕ) (s : Crew) (before after : List Wait) (w : Wait) (b : ℤ)
    → Fits n s
    → s.waits ≡ before ++ w ∷ after
    → w.f2 ≡ unsent b
    → Fits n (sends s before w after b) × (crew_left (sends s before w after b) < crew_left s)
unfolding sends crew_left
sends-Fits n s before after w b h e to_send =
    let k = length s.args in
    let w' : Wait = record w { f2 = sent k } in
    let (waiter, others) =
      All-taken (IsWait s.args) before w after (subst (All (IsWait s.args)) e h.waiters) in
    let eb = subst (IsOther s.args w.id waiter.m) to_send waiter.other in
    let x : Call = record { home = second; id = k; arg = b } in
    let fibers_before = ap (total wait_fibers) e ∙ total_taken wait_fibers before w after in
    let steps_before = ap (total wait_steps) e ∙ total_taken wait_steps before w after in
    (
      record {
        calls =
            put_call s.args s.queue second b
              (subst IsArg (sym eb) (omega arith, omega (arith, waiter.small))) h.calls;
        waiters =
            All-put (IsWait (s.args ++ b ∷ [])) before w' after
              (record {
                m = waiter.m;
                small = waiter.small;
                own =
                    get_elem?-append s.args (b ∷ []) w.id (pos (suc (suc (suc waiter.m))))
                      waiter.own;
                left = get_elem?-append s.args (b ∷ []) w.f1 (pos (suc waiter.m)) waiter.left;
                left_later = waiter.left_later;
                other = (
                  get_elem?-append_last s.args b ∙ ap some eb,
                  get_elem?-lt-length s.args w.id (pos (suc (suc (suc waiter.m)))) waiter.own,
                );
              })
              (All_map (IsWait s.args) (IsWait (s.args ++ b ∷ [])) (before ++ after)
                (IsWait-append s.args (b ∷ [])) others);
        values =
            All_map (IsResult s.args) (IsResult (s.args ++ b ∷ [])) s.results
              (IsResult-append s.args (b ∷ [])) h.values;
        whole = λ i below. elim (place_lem s.args b i below) [
          | inr this ↦ inl (HasKey-append_right call_id i s.queue _ (inl this))
          | inl known ↦ elim (h.whole i known) [
            | inl q ↦ inl (HasKey-append_left call_id i s.queue _ q)
            | inr (inl k) ↦
                inr (inl (HasKey-put i before after w w' refl (subst (HasKey wait_id i) e k)))
            | inr (inr found) ↦ inr (inr found)
          ]
        ];
        asked = get_elem?-append s.args (b ∷ []) 0 (pos n) h.asked;
        room = omega (
          arith,
          fibers_before,
          total_taken wait_fibers before w' after,
          one_more call_fibers s.queue x,
          ap other_fibers to_send,
          h.room,
        );
      },
      omega (
        arith,
        steps_before,
        total_taken wait_steps before w' after,
        one_more call_steps s.queue x,
        ap other_steps to_send,
      ),
    )

-- The two results are right, so their sum is.
sum_of :
    (args : List ℤ) (w : Wait) (rs : List (ℕ × ℤ)) (i : ℕ) (x y z : ℤ)
    → (h : IsWait args w) → All (IsResult args) rs
    → w.f2 ≡ sent i
    → value_of w.f1 rs ≡ some x
    → value_of i rs ≡ some y
    → checked (x +ℤ y) ≡ some z
    → z ≡ pos (fib (suc (suc (suc h.m))))
unfolding fib
sum_of args w rs i x y z h values to left right run =
    let (own, _) = subst (IsOther args w.id h.m) to h.other in
    let ex = value_of_lem args rs w.f1 (suc h.m) x values h.left left in
    let ey = value_of_lem args rs i (suc (suc h.m)) y values own right in
    let both =
      ap (λ x. checked (x +ℤ pos (fib (suc (suc h.m))))) (sym ex)
      ∙ ap (λ y. checked (x +ℤ y)) (sym ey)
      ∙ run in
    sym (
      sum_lem (fib (suc h.m)) (fib (suc (suc h.m))) z
        (omega (arith, fib_int (suc (suc (suc h.m))) h.small)) both)
    ∙ ap pos (omega arith)

pub sums-Fits :
    (n : ℕ) (s : Crew) (before after : List Wait) (w : Wait) (i : ℕ) (x y z : ℤ)
    → Fits n s
    → s.waits ≡ before ++ w ∷ after
    → w.f2 ≡ sent i
    → value_of w.f1 s.results ≡ some x
    → value_of i s.results ≡ some y
    → checked (x +ℤ y) ≡ some z
    → Fits n (sums s w (before ++ after) z)
      × (crew_left (sums s w (before ++ after) z) < crew_left s)
unfolding sums crew_left
sums-Fits n s before after w i x y z h e to left right run =
    let (waiter, others) =
      All-taken (IsWait s.args) before w after (subst (All (IsWait s.args)) e h.waiters) in
    let fibers_before = ap (total wait_fibers) e ∙ total_taken wait_fibers before w after in
    let steps_before = ap (total wait_steps) e ∙ total_taken wait_steps before w after in
    (
      record {
        calls = h.calls;
        waiters = others;
        values = (
          record {
            m = suc (suc (suc waiter.m));
            own = waiter.own;
            sum = sum_of s.args w s.results i x y z waiter h.values to left right run;
          },
          h.values,
        );
        whole = λ j below. elim (h.whole j below) [
          | inl q ↦ inl q
          | inr (inl k) ↦
              elim (HasKey-taken wait_id j before w after (subst (HasKey wait_id j) e k)) [
                | inl this ↦ inr (inr (z, value_of_new j w.id z s.results this))
                | inr other ↦ inr (inl other)
              ]
          | inr (inr (v, found)) ↦ inr (inr (value_of_more j w.id z v s.results found))
        ];
        asked = h.asked;
        room = omega (arith, fibers_before, h.room);
      },
      omega (arith, steps_before, ap other_steps to),
    )
