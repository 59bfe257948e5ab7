-- ===== src/Examples/PingPong/Tests.antt =====
-- The example over lists, after its first command.
use boost_job.Common.{◌<◌, ◌≡◌, ◌≢◌, ◌⊎◌, refl, false, [], ◌∷◌}
use boost_job.Examples.PingPong.{
  Popped, waits, throws, popped, Contents, list_fifo, seen_popped, IsFifo, Player, f1, Game, goes,
  turn, game, Reach, here, next, commands_left, push, print_pop, buf1, buf2, pong_job, ping_job,
  close,
}
use boost_job.Examples.PingPong.Played.{three_of, game_ends}

list_fifo-IsFifo : IsFifo list_fifo
list_fifo-IsFifo = record {
  view = λ c. c;
  view_opened = refl;
  view_push = λ m b. refl;
  view_pop = λ b. same (list_fifo.value_pop b);
  view_close = λ b. refl;
}
  where
    same : (q : Popped Contents) → seen_popped (λ c. c) q ≡ q
    same waits = refl
    same throws = refl
    same (popped m b) = refl

unfoldable called : Game Contents
unfolding pong_job
called = record {
  job1 = record {
    todo =
        print_pop buf2
        ∷ push buf1 "ping"
        ∷ print_pop buf2
        ∷ push buf1 "ping"
        ∷ print_pop buf2
        ∷ close buf1
        ∷ [];
    printed = [];
  };
  job2 = record { todo = pong_job; printed = [] };
  first = record { messages = "ping" ∷ []; is_closed = false };
  second = record { messages = []; is_closed = false };
}

called-Reach : Reach list_fifo called
unfolding called turn game ping_job pong_job
called-Reach = next f1 here refl

game_ends_example :
    ((p : Player) → turn list_fifo p called ≢ throws)
    × ((p : Player) (h : Game Contents)
        → turn list_fifo p called ≡ goes h
        → commands_left h < commands_left called)
    × (((called.job1 ≡ three_of "pong") × (called.job2 ≡ three_of "ping"))
        ⊎ ((p : Player) × (h : Game Contents) × (turn list_fifo p called ≡ goes h)))
game_ends_example = game_ends list_fifo list_fifo-IsFifo called called-Reach
