-- ===== src/Examples/PingPong/Played.antt =====
-- The example over any channel that does what is documented.
use Prim.Native.String.{String}
use boost_job.Common.{
  ◌<◌, ◌≡◌, ◌≢◌, ◌⊎◌, inl, inr, refl, sym, ap, subst, ◌∙◌, Bool, true, false, Option, none, some,
  List, [], ◌∷◌,
}
use boost_job.Examples.PingPong.{
  Popped, waits, throws, popped, Fifo, Contents, list_fifo, seen_popped, IsFifo, Buffer, buf1, buf2,
  Command, push, print_pop, close, Player, f1, f2, Job, Game, Turn, ended, goes, buffer_of,
  with_buffer, with_job, print, turn_of, turn, game, Reach, here, next, commands_left,
}
use boost_job.Examples.PingPong.Rounds.{
  Stage, start, over, game_at, after, is_over, turn_at, turn_lem, rounds_of, game_lem, after_lem,
  mover,
}

abbrev view_turn : {A B : Type 0} → (Game A → Game B) → Turn A → Turn B
view_turn f ended = ended
view_turn f waits = waits
view_turn f throws = throws
view_turn f (goes g) = goes (f g)

game_in : {A : Type 0} → Game A → Turn A → Game A
game_in d (goes g) = g
game_in d t = d

-- What a turn does, read from what it does to lists.
turn_at_goes :
    (b : Bool) (o : Option Stage) (x : Game Contents)
    → turn_at b o ≡ goes x
    → (t : Stage) × (o ≡ some t) × (x ≡ game_at t)
unfolding game_in
turn_at_goes b (some t) x e = (t, refl, sym (ap (game_in x) e))
turn_at_goes true none x e = absurd cc
turn_at_goes false none x e = absurd cc

turn_at_throws : (b : Bool) (o : Option Stage) → turn_at b o ≢ throws
turn_at_throws b (some t) e = cc
turn_at_throws true none e = cc
turn_at_throws false none e = cc

goes_back :
    {A : Type 0} (f : Game A → Game Contents) (t : Turn A) (x : Game Contents)
    → view_turn f t ≡ goes x
    → (h : Game A) × (t ≡ goes h)
goes_back f (goes h) x e = (h, refl)
goes_back f ended x e = absurd cc
goes_back f waits x e = absurd cc
goes_back f throws x e = absurd cc

module _ {Buf : Type 0} (fifo : Fifo Buf) (is : IsFifo fifo) where
  abbrev view_game : Game Buf → Game Contents
  view_game g = record {
    job1 = g.job1;
    job2 = g.job2;
    first = is.view g.first;
    second = is.view g.second;
  }

  view_game-with_job :
      (p : Player) (j : Job) (c : Buffer) (b : Buf) (g : Game Buf)
      → view_game (with_job p j (with_buffer c b g))
        ≡ with_job p j (with_buffer c (is.view b) (view_game g))
  view_game-with_job f1 j buf1 b g = refl
  view_game-with_job f1 j buf2 b g = refl
  view_game-with_job f2 j buf1 b g = refl
  view_game-with_job f2 j buf2 b g = refl

  view-buffer_of : (c : Buffer) (g : Game Buf) → is.view (buffer_of c g) ≡ buffer_of c (view_game g)
  view-buffer_of buf1 g = refl
  view-buffer_of buf2 g = refl

  view_turn-print :
      (p : Player) (out : List String) (rest : List Command) (c : Buffer) (q : Popped Buf)
      (g : Game Buf)
      → view_turn view_game (print p out rest c q g)
        ≡ print p out rest c (seen_popped is.view q) (view_game g)
  view_turn-print p out rest c waits g = refl
  view_turn-print p out rest c throws g = refl
  view_turn-print p out rest c (popped m b) g = ap goes (view_game-with_job p _ c b g)

  view_turn-turn_of :
      (p : Player) (out : List String) (todo : List Command) (g : Game Buf)
      → view_turn view_game (turn_of fifo p out todo g) ≡ turn_of list_fifo p out todo (view_game g)
  view_turn-turn_of p out [] g = refl
  view_turn-turn_of p out (push c m ∷ rest) g = ap goes (
      view_game-with_job p (record { todo = rest; printed = out }) c (fifo.push m (buffer_of c g)) g
      ∙ ap (λ x. with_job p (record { todo = rest; printed = out }) (with_buffer c x (view_game g)))
          (is.view_push m (buffer_of c g) ∙ ap (list_fifo.push m) (view-buffer_of c g)))
  view_turn-turn_of p out (print_pop c ∷ rest) g =
      view_turn-print p out rest c (fifo.value_pop (buffer_of c g)) g
      ∙ ap (λ q. print p out rest c q (view_game g))
          (is.view_pop (buffer_of c g) ∙ ap list_fifo.value_pop (view-buffer_of c g))
  view_turn-turn_of p out (close c ∷ rest) g = ap goes (
      view_game-with_job p (record { todo = rest; printed = out }) c (fifo.close (buffer_of c g)) g
      ∙ ap (λ x. with_job p (record { todo = rest; printed = out }) (with_buffer c x (view_game g)))
          (is.view_close (buffer_of c g) ∙ ap list_fifo.close (view-buffer_of c g)))

  view_turn-turn :
      (p : Player) (g : Game Buf)
      → view_turn view_game (turn fifo p g) ≡ turn list_fifo p (view_game g)
  unfolding turn
  view_turn-turn f1 g = view_turn-turn_of f1 g.job1.printed g.job1.todo g
  view_turn-turn f2 g = view_turn-turn_of f2 g.job2.printed g.job2.todo g

  -- A game at a stage of three rounds.
  abbrev AtStage : Game Buf → Type 0
  AtStage g = (s : Stage) × (view_game g ≡ game_at s) × (rounds_of s ≡ 3)

  turn_stage :
      (p : Player) (g : Game Buf) (s : Stage)
      → view_game g ≡ game_at s
      → view_turn view_game (turn fifo p g) ≡ turn_at (is_over p s) (after p s)
  turn_stage p g s e = view_turn-turn p g ∙ ap (turn list_fifo p) e ∙ turn_lem p s

  turn-AtStage :
      (p : Player) (g h : Game Buf)
      → AtStage g
      → turn fifo p g ≡ goes h
      → AtStage h × (commands_left h < commands_left g)
  turn-AtStage p g h (s, e, three) run =
      let (t, onward, e') =
        turn_at_goes (is_over p s) (after p s) (view_game h)
          (sym (turn_stage p g s e) ∙ ap (view_turn view_game) run) in
      let (same, fewer) = after_lem p s t onward in
      (
        (t, e', same ∙ three),
        subst (λ n. n < commands_left g) (ap commands_left (sym e'))
            (subst (λ n. commands_left (game_at t) < n) (ap commands_left (sym e)) fewer),
      )

  view_game-game : view_game (game fifo) ≡ game list_fifo
  unfolding game
  view_game-game =
      ap (λ c. record { job1 = (game fifo).job1; job2 = (game fifo).job2; first = c; second = c })
        is.view_opened

  Reach-AtStage : (g : Game Buf) → Reach fifo g → AtStage g
  unfolding rounds_of
  Reach-AtStage _ here = (start 3 0, view_game-game ∙ game_lem, refl)
  Reach-AtStage _ (next {g = g} {h = h} p r run) = (turn-AtStage p g h (Reach-AtStage g r) run).0

abbrev pub three_of : String → Job
three_of m = record { todo = []; printed = m ∷ m ∷ m ∷ [] }

-- For a channel that does what is documented of it, in any order in which the two jobs of
-- ping_pong.cpp run: none of them throws, every command leaves fewer, and as long as not both
-- jobs have ended with three answers and three calls printed, one of them goes on.
pub game_ends :
    {Buf : Type 0} (fifo : Fifo Buf) (is : IsFifo fifo) (g : Game Buf)
    → Reach fifo g
    → ((p : Player) → turn fifo p g ≢ throws)
      × ((p : Player) (h : Game Buf) → turn fifo p g ≡ goes h → commands_left h < commands_left g)
      × (((g.job1 ≡ three_of "pong") × (g.job2 ≡ three_of "ping"))
          ⊎ ((p : Player) × (h : Game Buf) × (turn fifo p g ≡ goes h)))
unfolding game_at rounds_of
game_ends fifo is g r =
    let at = Reach-AtStage fifo is g r in
    let (s, e, three) = at in
    (
      λ p throw.
          turn_at_throws (is_over p s) (after p s)
            (sym (turn_stage fifo is p g s e) ∙ ap (view_turn (view_game fifo is)) throw),
      λ p h run. (turn-AtStage fifo is p g h at run).1,
      elim (mover s) [
        | inl (d, final) ↦
            let at_end = e ∙ ap game_at (final ∙ ap over (sym (ap rounds_of final) ∙ three)) in
            inl (ap (λ x. x.job1) at_end, ap (λ x. x.job2) at_end)
        | inr (p, t, onward) ↦
            let (h, run) =
              goes_back (view_game fifo is) (turn fifo p g) (game_at t)
                (turn_stage fifo is p g s e ∙ ap (turn_at (is_over p s)) onward) in
            inr (p, h, run)
      ],
    )
