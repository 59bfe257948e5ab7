-- ===== src/Examples/PingPong/Rounds.antt =====
-- The stages of a game over channels that are lists.
use Prim.Native.String.{String}
use boost_job.Common.{
  ℕ, zero, suc, ◌+◌, ◌<◌, ◌≡◌, ◌⊎◌, inl, inr, refl, subst, Bool, true, false, Option, none, some,
  List, [], ◌∷◌, ◌++◌, arith,
}
use boost_job.Examples.PingPong.{
  Contents, list_fifo, buf1, buf2, Command, push, print_pop, close, Player, f1, f2, Game, Turn,
  ended, waits, goes, ping_job, pong_job, turn, game, commands_left,
}

-- So many rounds.
unfoldable pings : ℕ → List Command
pings zero = close buf1 ∷ []
pings (suc k) = push buf1 "ping" ∷ print_pop buf2 ∷ pings k

unfoldable pongs : ℕ → List Command
pongs zero = close buf2 ∷ []
pongs (suc k) = print_pop buf1 ∷ push buf2 "pong" ∷ pongs k

abbrev pub many : ℕ → String → List String
many zero m = []
many (suc d) m = many d m ++ m ∷ []

-- Rounds to come and rounds done: at the start of a round, with a message in the first channel, with
-- the answer due, and with the answer in the second channel. At the end one job can be behind.
pub data Stage : Type 0 where
  start sent taken answered : ℕ → ℕ → Stage
  last quit1 quit2 over : ℕ → Stage

abbrev holding : List String → Bool → Contents
holding ms b = record { messages = ms; is_closed = b }

-- What is left of each job, the rounds that each has printed, and the channels.
abbrev game_of : List Command → ℕ → List Command → ℕ → Contents → Contents → Game Contents
game_of todo1 d1 todo2 d2 c1 c2 = record {
  job1 = record { todo = todo1; printed = many d1 "pong" };
  job2 = record { todo = todo2; printed = many d2 "ping" };
  first = c1;
  second = c2;
}

unfoldable pub game_at : Stage → Game Contents
unfolding pings pongs
game_at (start k d) = game_of (pings k) d (pongs k) d (holding [] false) (holding [] false)
game_at (sent k d) =
    game_of (print_pop buf2 ∷ pings k) d (pongs (suc k)) d (holding ("ping" ∷ []) false)
      (holding [] false)
game_at (taken k d) =
    game_of (print_pop buf2 ∷ pings k) d (push buf2 "pong" ∷ pongs k) (suc d) (holding [] false)
      (holding [] false)
game_at (answered k d) =
    game_of (print_pop buf2 ∷ pings k) d (pongs k) (suc d) (holding [] false)
      (holding ("pong" ∷ []) false)
game_at (last d) =
    game_of (print_pop buf2 ∷ pings 0) d [] (suc d) (holding [] false) (holding ("pong" ∷ []) true)
game_at (quit1 d) = game_of [] d (pongs 0) d (holding [] true) (holding [] false)
game_at (quit2 d) = game_of (pings 0) d [] d (holding [] false) (holding [] true)
game_at (over d) = game_of [] d [] d (holding [] true) (holding [] true)

-- The stage that a job's next command leads to; `none` is a job that waits or is at its end.
unfoldable pub after : Player → Stage → Option Stage
after f1 (start zero d) = some (quit1 d)
after f1 (start (suc k) d) = some (sent k d)
after f1 (answered k d) = some (start k (suc d))
after f1 (last d) = some (quit2 (suc d))
after f1 (quit2 d) = some (over d)
after f1 (sent k d) = none
after f1 (taken k d) = none
after f1 (quit1 d) = none
after f1 (over d) = none
after f2 (start zero d) = some (quit2 d)
after f2 (start (suc k) d) = none
after f2 (sent k d) = some (taken k d)
after f2 (taken k d) = some (answered k d)
after f2 (answered zero d) = some (last d)
after f2 (answered (suc k) d) = none
after f2 (quit1 d) = some (over d)
after f2 (last d) = none
after f2 (quit2 d) = none
after f2 (over d) = none

abbrev pub is_over : Player → Stage → Bool
is_over f1 (quit1 d) = true
is_over f2 (last d) = true
is_over f2 (quit2 d) = true
is_over p (over d) = true
is_over p s = false

abbrev pub turn_at : Bool → Option Stage → Turn Contents
turn_at b (some s) = goes (game_at s)
turn_at true none = ended
turn_at false none = waits

pub turn_lem :
    (p : Player) (s : Stage) → turn list_fifo p (game_at s) ≡ turn_at (is_over p s) (after p s)
unfolding turn game_at after pings pongs
turn_lem f1 (start zero d) = refl
turn_lem f1 (start (suc k) d) = refl
turn_lem f1 (sent k d) = refl
turn_lem f1 (taken k d) = refl
turn_lem f1 (answered k d) = refl
turn_lem f1 (last d) = refl
turn_lem f1 (quit1 d) = refl
turn_lem f1 (quit2 d) = refl
turn_lem f1 (over d) = refl
turn_lem f2 (start zero d) = refl
turn_lem f2 (start (suc k) d) = refl
turn_lem f2 (sent k d) = refl
turn_lem f2 (taken k d) = refl
turn_lem f2 (answered zero d) = refl
turn_lem f2 (answered (suc k) d) = refl
turn_lem f2 (last d) = refl
turn_lem f2 (quit1 d) = refl
turn_lem f2 (quit2 d) = refl
turn_lem f2 (over d) = refl

-- The rounds in all.
unfoldable pub rounds_of : Stage → ℕ
rounds_of (start k d) = k + d
rounds_of (sent k d) = suc (k + d)
rounds_of (taken k d) = suc (k + d)
rounds_of (answered k d) = suc (k + d)
rounds_of (last d) = suc d
rounds_of (quit1 d) = d
rounds_of (quit2 d) = d
rounds_of (over d) = d

pub game_lem : game list_fifo ≡ game_at (start 3 0)
unfolding game game_at pings pongs ping_job pong_job
game_lem = refl

-- Every command leaves fewer, and the rounds in all stay.
abbrev Onward : Stage → Option Stage → Type 0
Onward s none = Unit {0}
Onward s (some t) =
    (rounds_of t ≡ rounds_of s) × (commands_left (game_at t) < commands_left (game_at s))

onward : (p : Player) (s : Stage) → Onward s (after p s)
unfolding after rounds_of game_at pings pongs
onward f1 (start zero d) = (omega arith, omega arith)
onward f1 (start (suc k) d) = (omega arith, omega arith)
onward f1 (answered k d) = (omega arith, omega arith)
onward f1 (last d) = (omega arith, omega arith)
onward f1 (quit2 d) = (omega arith, omega arith)
onward f1 (sent k d) = tt
onward f1 (taken k d) = tt
onward f1 (quit1 d) = tt
onward f1 (over d) = tt
onward f2 (start zero d) = (omega arith, omega arith)
onward f2 (start (suc k) d) = tt
onward f2 (sent k d) = (omega arith, omega arith)
onward f2 (taken k d) = (omega arith, omega arith)
onward f2 (answered zero d) = (omega arith, omega arith)
onward f2 (answered (suc k) d) = tt
onward f2 (quit1 d) = (omega arith, omega arith)
onward f2 (last d) = tt
onward f2 (quit2 d) = tt
onward f2 (over d) = tt

pub after_lem :
    (p : Player) (s t : Stage)
    → after p s ≡ some t
    → (rounds_of t ≡ rounds_of s) × (commands_left (game_at t) < commands_left (game_at s))
after_lem p s t e = subst (Onward s) e (onward p s)

pub mover :
    (s : Stage) → ((d : ℕ) × (s ≡ over d)) ⊎ ((p : Player) × (t : Stage) × (after p s ≡ some t))
unfolding after
mover (start zero d) = inr (f1, quit1 d, refl)
mover (start (suc k) d) = inr (f1, sent k d, refl)
mover (sent k d) = inr (f2, taken k d, refl)
mover (taken k d) = inr (f2, answered k d, refl)
mover (answered k d) = inr (f1, start k (suc d), refl)
mover (last d) = inr (f1, quit2 (suc d), refl)
mover (quit1 d) = inr (f2, over d, refl)
mover (quit2 d) = inr (f1, over d, refl)
mover (over d) = inl (d, refl)
