-- ===== src/Examples/Fibers.antt =====
-- The fibers that jobs keep: how many there are, and what the submissions change.
use boost_job.Common.{
  ℕ, suc, ◌+◌, ◌*◌, ◌≤◌, ◌<◌, ◌≡◌, refl, ap, subst, List, [], ◌∷◌, ◌++◌, length, if◌then◌else◌,
  arith,
}
use boost_job.Examples.Crew.{Home, Other, first, second, Wait, same_home, busy}

-- The fibers of both worker threads.
pub busy_total : (ws : List Wait) → busy first ws + busy second ws ≡ length ws
busy_total [] = refl
busy_total (w ∷ ws) = counted w.home (busy first ws) (busy second ws) (length ws) (busy_total ws)
  where
    counted :
        (h : Home) (a b k : ℕ)
        → a + b ≡ k
        → (if same_home first h then suc a else a) + (if same_home second h then suc b else b)
          ≡ suc k
    counted first a b k e = omega (arith, e)
    counted second a b k e = omega (arith, e)

-- A worker thread with a free fiber takes another job.
pub busy_room :
    (size : ℕ) (w : Wait) (ws : List Wait)
    → busy w.home ws < size
    → busy first ws ≤ size
    → busy second ws ≤ size
    → (busy first (w ∷ ws) ≤ size) × (busy second (w ∷ ws) ≤ size)
busy_room size w ws free a b =
    room w.home (busy first ws) (busy second ws) (subst (λ n. n < size) (own w.home ws) free) a b
  where
    own :
        (h : Home) (ws : List Wait)
        → busy h ws ≡ elim h [ first ↦ busy first ws | second ↦ busy second ws ]
    own first ws = refl
    own second ws = refl

    room :
        (h : Home) (a b : ℕ)
        → elim h [ first ↦ a | second ↦ b ] < size
        → a ≤ size
        → b ≤ size
        → ((if same_home first h then suc a else a) ≤ size)
          × ((if same_home second h then suc b else b) ≤ size)
    room first a b free x y = (omega arith, y)
    room second a b free x y = (x, omega arith)

-- The fibers that wait are fewer than all.
pub busy_less :
    (size : ℕ) (h : Home) (ws : List Wait)
    → busy h ws < size
    → busy first ws ≤ size
    → busy second ws ≤ size
    → length ws < 2 * size
busy_less size first ws free a b = omega (arith, busy_total ws)
busy_less size second ws free a b = omega (arith, busy_total ws)

-- A job that submits its second job stays where it is.
pub busy-sent :
    (h : Home) (before after : List Wait) (w : Wait) (o : Other)
    → busy h (before ++ record w { f2 = o } ∷ after) ≡ busy h (before ++ w ∷ after)
busy-sent h [] after w o = refl
busy-sent h (v ∷ before) after w o =
    ap (λ n. if same_home h v.home then suc n else n) (busy-sent h before after w o)

pub length-sent :
    (before after : List Wait) (w : Wait) (o : Other)
    → length (before ++ record w { f2 = o } ∷ after) ≡ length (before ++ w ∷ after)
length-sent [] after w o = refl
length-sent (v ∷ before) after w o = ap suc (length-sent before after w o)
