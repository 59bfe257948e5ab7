-- ===== src/Examples/Moves.antt =====
-- Every step of the example keeps the jobs in their places and lowers the work that is left.
use boost_job.Common.{
  ℕ, suc, ◌+◌, ◌<◌, ◌≡◌, ◌⊎◌, inl, inr, sym, ap, subst, ◌∙◌, some, List, [], ◌∷◌, ◌++◌, length,
  get_elem?-lt-length, length-append, arith, All, All_map, All-taken, All-append, HasKey,
  HasKey-taken, HasKey-append_left, HasKey-append_right, total, total_taken, total-append, dec_lt,
}
use boost_job.Examples.{ℤ, pos, queued, waiting, result, fibonacci}
use boost_job.Examples.Crew.{Home, first, Call, Crew, returns, splits}
use boost_job.Examples.Known.{
  get_elem?-append, get_elem?-append_last, IsArg, IsCall, IsWait, IsResult, IsCall-append,
  IsWait-append, IsResult-append, value_of_new, value_of_more,
}
use boost_job.Examples.Fits.{
  fibers, steps, call_fibers, call_steps, crew_left, call_id, Fits, ends_lem, submits_lem,
  shares_lem,
}

pub ends-Fits :
    (n : ℕ) (s : Crew) (before after : List Call) (c : Call) (v : ℤ)
    → Fits n s
    → s.queue ≡ before ++ c ∷ after
    → fibonacci c.arg ≡ some (result v)
    → Fits n (returns s c (before ++ after) v)
      × (crew_left (returns s c (before ++ after) v) < crew_left s)
unfolding returns crew_left
ends-Fits n s before after c v h e run =
    let (call, others) =
      All-taken (IsCall s.args) before c after (subst (All (IsCall s.args)) e h.calls) in
    let (m, arg, sum, none_wait, one_step) = ends_lem c.arg v call.0 run in
    let waits = ap (total call_fibers) e ∙ total_taken call_fibers before c after in
    let left = ap (total call_steps) e ∙ total_taken call_steps before c after in
    (
      record {
        calls = others;
        waiters = h.waiters;
        values = (record { m = m; own = call.1 ∙ ap some arg; sum = sum }, h.values);
        whole = λ i below. elim (h.whole i below) [
          | inl q ↦ elim (HasKey-taken call_id i before c after (subst (HasKey call_id i) e q)) [
            | inl this ↦ inr (inr (v, value_of_new i c.id v s.results this))
            | inr other ↦ inl other
          ]
          | inr (inl w) ↦ inr (inl w)
          | inr (inr (x, found)) ↦ inr (inr (value_of_more i c.id v x s.results found))
        ];
        asked = h.asked;
        room = omega (arith, waits, none_wait, h.room);
      },
      omega (arith, left, one_step),
    )

-- A job that is submitted.
pub put_call :
    (args : List ℤ) (rest : List Call) (home : Home) (a : ℤ)
    → IsArg a
    → All (IsCall args) rest
    → All (IsCall (args ++ a ∷ [])) (rest ++ record { home = home; id = length args; arg = a } ∷ [])
put_call args rest home a ha h =
    All-append (IsCall (args ++ a ∷ [])) rest _
      (All_map (IsCall args) (IsCall (args ++ a ∷ [])) rest (IsCall-append args (a ∷ [])) h)
      ((ha, get_elem?-append_last args a), tt)

pub one_more :
    (f : Call → ℕ) (cs : List Call) (x : Call) → total f (cs ++ x ∷ []) ≡ total f cs + f x
unfolding total
one_more f cs x = omega (arith, total-append f cs (x ∷ []))

-- The place of the new job, and of those that were there.
pub place_lem :
    (args : List ℤ) (a : ℤ) (i : ℕ)
    → i < length (args ++ a ∷ [])
    → (i < length args) ⊎ (length args ≡ i)
place_lem args a i below = elim (dec_lt i (length args)) [
  | yes known ↦ inl known
  | no new ↦ inr (omega (arith, length-append args (a ∷ []), below))
]

pub submits-Fits :
    (n : ℕ) (s : Crew) (before after : List Call) (c : Call) (a b : ℤ)
    → Fits n s
    → s.queue ≡ before ++ c ∷ after
    → fibonacci c.arg ≡ some (waiting (queued a) (queued b))
    → Fits n (splits s c (before ++ after) a b)
      × (crew_left (splits s c (before ++ after) a b) < crew_left s)
unfolding splits crew_left total
submits-Fits n s before after c a b h e run =
    let (call, others) =
      All-taken (IsCall s.args) before c after (subst (All (IsCall s.args)) e h.calls) in
    let (m, small, ez, ea, eb) = submits_lem c.arg a b call.0 run in
    let (share, less) = shares_lem m in
    let fibers_before = ap (total call_fibers) e ∙ total_taken call_fibers before c after in
    let steps_before = ap (total call_steps) e ∙ total_taken call_steps before c after in
    let x : Call = record { home = first; id = length s.args; arg = a } in
    (
      record {
        calls =
            put_call s.args (before ++ after) first a
              (subst IsArg (sym ea) (omega arith, omega arith)) others;
        waiters = (
          record {
            m = m;
            small = small;
            own =
                get_elem?-append s.args (a ∷ []) c.id (pos (suc (suc (suc m))))
                  (call.1 ∙ ap some ez);
            left = get_elem?-append_last s.args a ∙ ap some ea;
            left_later = get_elem?-lt-length s.args c.id c.arg call.1;
            other = eb;
          },
          All_map (IsWait s.args) (IsWait (s.args ++ a ∷ [])) s.waits
              (IsWait-append s.args (a ∷ [])) h.waiters,
        );
        values =
            All_map (IsResult s.args) (IsResult (s.args ++ a ∷ [])) s.results
              (IsResult-append s.args (a ∷ [])) h.values;
        whole = λ i below. elim (place_lem s.args a i below) [
          | inr this ↦ inl (HasKey-append_right call_id i (before ++ after) _ (inl this))
          | inl known ↦ elim (h.whole i known) [
            | inl q ↦ elim (HasKey-taken call_id i before c after (subst (HasKey call_id i) e q)) [
              | inl this ↦ inr (inl (inl this))
              | inr other ↦ inl (HasKey-append_left call_id i (before ++ after) _ other)
            ]
            | inr (inl w) ↦ inr (inl (inr w))
            | inr (inr found) ↦ inr (inr found)
          ]
        ];
        asked = get_elem?-append s.args (a ∷ []) 0 (pos n) h.asked;
        room = omega (
          arith,
          fibers_before,
          one_more call_fibers (before ++ after) x,
          ap fibers ez,
          ap fibers ea,
          ap fibers eb,
          share,
          h.room,
        );
      },
      omega (
        arith,
        steps_before,
        one_more call_steps (before ++ after) x,
        ap steps ez,
        ap steps ea,
        ap steps eb,
        less,
      ),
    )
