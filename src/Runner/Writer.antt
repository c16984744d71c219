-- ===== src/Runner/Writer.antt =====
-- `_StdinWriter` of src/ironbench/runner_common.py: the pump of a child's standard input.
--
-- One event is one block under the lock, or the write of the pump to the pipe, which the lock does
-- not guard. `stdin` is what the pipe has taken, `taken` what the pump holds in its hands.
use ironharness.Prelude.{
  ℕ, ◌+◌, ◌-◌, Bool, true, false, ◌||◌, ◌&&◌, not, Option, none, some, List, [], ◌∷◌, ◌++◌, Bytes,
  length, ltb, if◌then◌else◌,
}

-- MAX_PENDING_BYTES
abbrev pub max_pending_bytes : ℕ
max_pending_bytes = 1048576

pub record Writer : Type 0 where
  pub queue : List Bytes
  pub pending : ℕ
  pub is_overflow : Bool
  pub is_broken : Bool
  pub is_closing : Bool
  pub taken : Option Bytes
  pub stdin : List Bytes
  pub is_done : Bool

abbrev pub new_writer : Writer
new_writer = record {
  queue = [];
  pending = 0;
  is_overflow = false;
  is_broken = false;
  is_closing = false;
  taken = none;
  stdin = [];
  is_done = false;
}

pub data Event : Type 0 where
  write : Bytes → Event
  take_next delivered pipe_died drained close : Event

-- Whether write enqueues.
unfoldable pub accepts : Bytes → Writer → Bool
accepts text w =
    not (w.is_broken || w.is_overflow) && not (ltb max_pending_bytes (w.pending + length text))

unfoldable pub put : Bytes → Writer → Writer
put text w =
    if w.is_broken || w.is_overflow
    then w
    else if ltb max_pending_bytes (w.pending + length text)
    then record w { is_overflow = true }
    else record w { queue = w.queue ++ text ∷ []; pending = w.pending + length text }

-- The pump's popleft, where its hands are free.
unfoldable pub pop : Option Bytes → List Bytes → Writer → Writer
pop (some text) queue w = w
pop none [] w = w
pop none (text ∷ texts) w = record w {
  queue = texts;
  pending = w.pending - length text;
  taken = some text;
}

unfoldable pub deliver : Option Bytes → Writer → Writer
deliver none w = w
deliver (some text) w = record w { stdin = w.stdin ++ text ∷ []; taken = none }

-- The write raises: the backlog is dropped and the pump ends.
unfoldable pub fail : Option Bytes → Writer → Writer
fail none w = w
fail (some text) w = record w {
  queue = [];
  pending = 0;
  is_broken = true;
  taken = none;
  is_done = true;
}

-- The pump finds the queue empty: it ends if it is to close, and waits otherwise.
unfoldable pub settle : Option Bytes → List Bytes → Writer → Writer
settle none [] w = record w { is_done = w.is_closing }
settle _ _ w = w

unfoldable pub step : Event → Writer → Writer
step (write text) w = put text w
step take_next w = if w.is_done then w else pop w.taken w.queue w
step delivered w = deliver w.taken w
step pipe_died w = fail w.taken w
step drained w = if w.is_done then w else settle w.taken w.queue w
step close w = record w { is_closing = true }

-- The writer after some events, with the texts that it accepted, in order.
unfoldable pub accept : Event → Writer → List Bytes → List Bytes
accept (write text) w texts = if accepts text w then texts ++ text ∷ [] else texts
accept _ w texts = texts

unfoldable pub run : List Event → Writer → List Bytes → Writer × List Bytes
run [] w texts = (w, texts)
run (e ∷ es) w texts = run es (step e w) (accept e w texts)

unfoldable pub total : List Bytes → ℕ
total [] = 0
total (text ∷ texts) = length text + total texts

abbrev pub in_hand : Option Bytes → List Bytes
in_hand none = []
in_hand (some text) = text ∷ []
