-- ===== src/Examples/PingPong.antt =====
-- examples/ping_pong.cpp: two jobs that send each other messages over two channels. The channel of
-- boost.fiber is a parameter.
mod Rounds
mod Played
mod Tests
use Prim.Native.String.{String}
use boost_job.Common.{ℕ, ◌+◌, ◌≡◌, Bool, true, false, List, [], ◌∷◌, ◌++◌, length, if◌then◌else◌}

-- `value_pop`: the fiber waits, an exception is thrown, or there is a message.
pub data Popped (Buf : Type 0) : Type 0 where
  waits throws : Popped Buf
  popped : String → Buf → Popped Buf

-- `fibers::unbounded_channel< std::string >`.
pub record Fifo (Buf : Type 0) : Type 0 where
  pub opened : Buf
  pub push : String → Buf → Buf
  pub value_pop : Buf → Popped Buf
  pub close : Buf → Buf

-- What is documented of it: messages come out in the order in which they were pushed, until the
-- channel is closed and empty, and a closed channel takes none.
pub record Contents : Type 0 where
  pub messages : List String
  pub is_closed : Bool

abbrev pub list_pop : List String → Bool → Popped Contents
list_pop [] true = throws
list_pop [] false = waits
list_pop (m ∷ ms) b = popped m (record { messages = ms; is_closed = b })

abbrev pub list_fifo : Fifo Contents
list_fifo = record {
  opened = record { messages = []; is_closed = false };
  push = λ m c. record {
    messages = if c.is_closed then c.messages else c.messages ++ m ∷ [];
    is_closed = c.is_closed;
  };
  value_pop = λ c. list_pop c.messages c.is_closed;
  close = λ c. record { messages = c.messages; is_closed = true };
}

abbrev pub seen_popped : {Buf : Type 0} → (Buf → Contents) → Popped Buf → Popped Contents
seen_popped view waits = waits
seen_popped view throws = throws
seen_popped view (popped m b) = popped m (view b)

pub record IsFifo {Buf : Type 0} (fifo : Fifo Buf) : Type 0 where
  pub view : Buf → Contents
  pub view_opened : view fifo.opened ≡ list_fifo.opened
  pub view_push : (m : String) (b : Buf) → view (fifo.push m b) ≡ list_fifo.push m (view b)
  pub view_pop : (b : Buf) → seen_popped view (fifo.value_pop b) ≡ list_fifo.value_pop (view b)
  pub view_close : (b : Buf) → view (fifo.close b) ≡ list_fifo.close (view b)

pub data Buffer : Type 0 where
  buf1 buf2 : Buffer

pub data Command : Type 0 where
  push : Buffer → String → Command
  print_pop : Buffer → Command
  close : Buffer → Command

-- The two lambdas.
unfoldable pub ping_job : List Command
ping_job =
    push buf1 "ping"
    ∷ print_pop buf2
    ∷ push buf1 "ping"
    ∷ print_pop buf2
    ∷ push buf1 "ping"
    ∷ print_pop buf2
    ∷ close buf1
    ∷ []

unfoldable pub pong_job : List Command
pong_job =
    print_pop buf1
    ∷ push buf2 "pong"
    ∷ print_pop buf1
    ∷ push buf2 "pong"
    ∷ print_pop buf1
    ∷ push buf2 "pong"
    ∷ close buf2
    ∷ []

pub data Player : Type 0 where
  f1 f2 : Player

-- What is left to do, and what has been printed, of a job; and the channels.
pub record Job : Type 0 where
  pub todo : List Command
  pub printed : List String

pub record Game (Buf : Type 0) : Type 0 where
  pub job1 : Job
  pub job2 : Job
  pub first : Buf
  pub second : Buf

-- A job that is at its end, waits, has thrown, or goes on.
pub data Turn (Buf : Type 0) : Type 0 where
  ended waits throws : Turn Buf
  goes : Game Buf → Turn Buf

module _ {Buf : Type 0} where
  abbrev pub buffer_of : Buffer → Game Buf → Buf
  buffer_of buf1 g = g.first
  buffer_of buf2 g = g.second

  abbrev pub with_buffer : Buffer → Buf → Game Buf → Game Buf
  with_buffer buf1 b g = record g { first = b }
  with_buffer buf2 b g = record g { second = b }

  abbrev pub job_of : Player → Game Buf → Job
  job_of f1 g = g.job1
  job_of f2 g = g.job2

  abbrev pub with_job : Player → Job → Game Buf → Game Buf
  with_job f1 j g = record g { job1 = j }
  with_job f2 j g = record g { job2 = j }

  abbrev pub print : Player → List String → List Command → Buffer → Popped Buf → Game Buf → Turn Buf
  print p out rest c waits g = waits
  print p out rest c throws g = throws
  print p out rest c (popped m b) g =
      goes (with_job p (record { todo = rest; printed = out ++ m ∷ [] }) (with_buffer c b g))

module _ {Buf : Type 0} (fifo : Fifo Buf) where
  abbrev pub command : Player → List String → List Command → Command → Game Buf → Turn Buf
  command p out rest (push c m) g = goes (
      with_job p (record { todo = rest; printed = out })
        (with_buffer c (fifo.push m (buffer_of c g)) g))
  command p out rest (print_pop c) g = print p out rest c (fifo.value_pop (buffer_of c g)) g
  command p out rest (close c) g = goes (
      with_job p (record { todo = rest; printed = out })
        (with_buffer c (fifo.close (buffer_of c g)) g))

  abbrev pub turn_of : Player → List String → List Command → Game Buf → Turn Buf
  turn_of p out [] g = ended
  turn_of p out (c ∷ rest) g = command p out rest c g

  unfoldable pub turn : Player → Game Buf → Turn Buf
  turn p g = turn_of p (job_of p g).printed (job_of p g).todo g

  -- `main` up to the two waits.
  unfoldable pub game : Game Buf
  unfolding ping_job pong_job
  game = record {
    job1 = record { todo = ping_job; printed = [] };
    job2 = record { todo = pong_job; printed = [] };
    first = fifo.opened;
    second = fifo.opened;
  }

  -- The two worker threads run their jobs at their own speed.
  pub data Reach : Game Buf → Type 0 where
    here : Reach game
    next : {g h : Game Buf} (p : Player) → Reach g → turn p g ≡ goes h → Reach h

-- The commands that are left.
abbrev pub commands_left : {Buf : Type 0} → Game Buf → ℕ
commands_left g = length g.job1.todo + length g.job2.todo
