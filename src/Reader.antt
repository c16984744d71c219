-- ===== src/Reader.antt =====
-- src/io_core/serial_reader.py: the bounded drop-oldest buffer of the background serial reader.
--
-- `SerialReader` has the fields of the class. The two locks are not fields: every block that the
-- source runs under `_lock` is one function here, so that a run of the threads is a sequence of
-- such functions. `time.monotonic()` is an argument, in ticks. The raw port is `Port`, an
-- argument too. Lengths are numbers; where the source subtracts below 0 the invariant of
-- Reader/Buffer.antt rules the case out.
pub mod Buffer
pub mod Consume
pub mod Rounds
pub mod ReadUntil
pub mod Views
mod Tests
use ironharness.Prelude.{
  ℕ, zero, suc, ◌+◌, ◌-◌, ◌<◌, min, ◌≡◌, Bool, true, false, not, ◌&&◌, ◌||◌, Option, none, some,
  List, [], ◌∷◌, ◌++◌, Bytes, length, take, drop, ltb, leb, ◌==◌, if◌then◌else◌,
}
use ironharness.Prelude.Search.{find}
use ironharness.Prelude.Hex.{hex}

-- A stamp and the bytes that were read then.
abbrev pub Chunk : Type 0
Chunk = ℕ × Bytes

-- OSError, ValueError, AssertionError and TransportClosedError of the port.
pub data PortError : Type 0 where
  os_error value_error assertion_error closed_error : PortError

pub record SerialReader : Type 0 where
  pub max_bytes : ℕ
  pub chunk : ℕ
  pub chunks : List Chunk
  pub bytes : ℕ
  pub dropped : ℕ
  pub consumed : ℕ
  pub stop : Bool
  pub error : Option PortError
  -- `_thread`: none, or whether the started thread is alive
  pub thread : Option Bool

-- The constructor with its three checks; `none` is ValueError.
pub init : ℕ → ℕ → Option SerialReader
init max_bytes chunk =
    if max_bytes == 0
    then none
    else if chunk == 0
    then none
    else if ltb max_bytes chunk
    then none
    else some (record {
      max_bytes = max_bytes;
      chunk = chunk;
      chunks = [];
      bytes = 0;
      dropped = 0;
      consumed = 0;
      stop = false;
      error = none;
      thread = none;
    })

-- `_evict_locked`, by the chunks that are left.
pub evict : List Chunk → SerialReader → SerialReader
evict [] r = record r { chunks = [] }
evict ((stamp, oldest) ∷ rest) r =
    let popped = evict rest (record r {
      dropped = r.dropped + (length oldest - r.consumed);
      bytes = r.bytes - length oldest;
      consumed = 0;
    }) in
    if ltb r.max_bytes r.bytes then popped else record r { chunks = (stamp, oldest) ∷ rest }

pub evict_locked : SerialReader → SerialReader
unfolding evict
evict_locked r = evict r.chunks r

-- The block `if data:` of `_run`.
pub ingest : ℕ → Bytes → SerialReader → SerialReader
unfolding evict_locked
ingest now [] r = r
ingest now (b ∷ bs) r =
    evict_locked
      (record r { chunks = r.chunks ++ (now, b ∷ bs) ∷ []; bytes = r.bytes + length (b ∷ bs) })

-- What one round of `_run` sees: `in_waiting` (none: unsupported, or it raised), the stop event
-- as it is once the I/O lock is held, the outcome of `read(n)`, and the clock after it.
pub data ReadResult : Type 0 where
  got : Bytes → ReadResult
  failed : PortError → ReadResult

pub record Port : Type 0 where
  pub in_waiting : Option ℕ
  pub stop_at_lock : Bool
  pub read : ℕ → ReadResult
  pub now : ℕ

-- Does the loop go on after this round?
pub data Next : Type 0 where
  again finished : Next

-- The thread's function has returned: `is_alive` is False from now on.
over : SerialReader → SerialReader × Next
over r = (record r { thread = elim r.thread [ none ↦ none | some alive ↦ some false ] }, finished)

after_read : Port → ReadResult → SerialReader → SerialReader × Next
unfolding ingest over
after_read p (got bytes) r = (ingest p.now bytes r, again)
after_read p (failed e) r = over (record r { error = some e })

drain : Port → ℕ → SerialReader → SerialReader × Next
unfolding after_read over
drain p size r =
    if p.stop_at_lock then over (record r { stop = true }) else after_read p (p.read size) r

-- The three cases of `in_waiting`.
serve : Port → Option ℕ → SerialReader → SerialReader × Next
unfolding drain
serve p none r = drain p r.chunk r
serve p (some zero) r = (r, again)
serve p (some (suc n)) r = drain p (min (suc n) r.chunk) r

-- The body of `while not self._stop.is_set()`, its test included.
pub run_round : Port → SerialReader → SerialReader × Next
unfolding serve over
run_round p r = if r.stop then over r else serve p p.in_waiting r

-- `b"".join` of the buffer, the consumed prefix of the first chunk left out.
pub joined : List Chunk → Bytes
joined [] = []
joined ((stamp, bytes) ∷ rest) = bytes ++ joined rest

pub unconsumed : ℕ → List Chunk → Bytes
unfolding joined
unconsumed consumed [] = []
unconsumed consumed ((stamp, bytes) ∷ rest) = drop consumed bytes ++ joined rest

-- `_snapshot_locked`
pub snapshot : SerialReader → Bytes
unfolding unconsumed
snapshot r = unconsumed r.consumed r.chunks

-- buf[-size:], which is all of buf for size 0.
last_bytes : ℕ → Bytes → Bytes
last_bytes zero buf = buf
last_bytes (suc k) buf = drop (length buf - suc k) buf

-- `_consume_locked`, by the chunks that are left.
pub consume : List Chunk → ℕ → SerialReader → SerialReader
consume [] n r = record r { chunks = [] }
consume ((stamp, bytes) ∷ rest) n r =
    let avail = length bytes - r.consumed in
    let popped =
      consume rest (n - avail) (record r { bytes = r.bytes - length bytes; consumed = 0 }) in
    if n == 0
    then record r { chunks = (stamp, bytes) ∷ rest }
    else if ltb n avail
    then record r { chunks = (stamp, bytes) ∷ rest; consumed = r.consumed + n }
    else popped

pub consume_locked : ℕ → SerialReader → SerialReader
unfolding consume
consume_locked n r = consume r.chunks n r

pub record Stats : Type 0 where
  pub buffered : ℕ
  pub dropped : ℕ
  pub chunks : ℕ

abbrev pub consumed_if_any : List Chunk → ℕ → ℕ
consumed_if_any [] consumed = 0
consumed_if_any (c ∷ cs) consumed = consumed

pub stats : SerialReader → Stats
stats r = record {
  buffered = r.bytes - consumed_if_any r.chunks r.consumed;
  dropped = r.dropped;
  chunks = length r.chunks;
}

-- `running`
pub running : SerialReader → Bool
running r = elim r.thread [ none ↦ false | some alive ↦ alive ]

-- The value of `tail`. `decode` is `bytes.decode("utf-8", "replace")`.
pub record Tail : Type 0 where
  pub data_hex : Bytes
  pub text : Bytes
  pub dropped : ℕ
  pub alive : Bool
  pub error : Option PortError

pub tail : (Bytes → Bytes) → ℕ → SerialReader → Tail
unfolding snapshot last_bytes running
tail decode size r = record {
  data_hex = hex (last_bytes size (snapshot r));
  text = decode (last_bytes size (snapshot r));
  dropped = r.dropped + consumed_if_any r.chunks r.consumed;
  alive = running r;
  error = r.error;
}

-- The value of `read_until`.
pub record Reply : Type 0 where
  pub found : Bool
  pub data_hex : Bytes
  pub text : Bytes
  pub alive : Bool
  pub error : Option PortError

reply : (Bytes → Bytes) → Bool → Bytes → Option PortError → SerialReader → Reply
unfolding running
reply decode found bytes error r = record {
  found = found;
  data_hex = hex bytes;
  text = decode bytes;
  alive = running r;
  error = error;
}

is_some {ℓ} : {A : Type ℓ} → Option A → Bool
is_some none = false
is_some (some a) = true

-- One round of the loop of `read_until` at the clock `now`; `none` is `time.sleep` and again. The
-- tests of the error, the clock and the stop event, which the source makes when it has left the lock,
-- are taken together with the snapshot under it: no round of `_run` stands in between.
pub poll : (Bytes → Bytes) → Bytes → ℕ → ℕ → SerialReader → Option (Reply × SerialReader)
unfolding snapshot reply is_some consume_locked
poll decode needle deadline now r = elim (find needle (snapshot r)) [
  | some pos ↦ some (
    reply decode true (take (pos + length needle) (snapshot r)) none r,
    consume_locked (pos + length needle) r,
  )
  | none ↦
      if is_some r.error || leb deadline now || r.stop
      then some (reply decode false (snapshot r) r.error r, r)
      else none
]

-- What the other threads do between two rounds: rounds of `_run`. More of them than the source can
-- have are allowed, since none is refused when the thread has finished.
abbrev pub Between : Type 0
Between = List Port

pub run_rounds : Between → SerialReader → SerialReader
unfolding run_round
run_rounds [] r = r
run_rounds (p ∷ ps) r = run_rounds ps (run_round p r).0

pub data Outcome : Type 0 where
  -- ValueError
  empty_pattern : Outcome
  replied : Reply → SerialReader → Outcome
  -- the schedule ended before the call did
  waiting : SerialReader → Outcome

await : (Bytes → Bytes) → Bytes → ℕ → List (Between × ℕ) → SerialReader → Outcome
unfolding poll run_rounds
await decode needle deadline [] r = waiting r
await decode needle deadline ((between, now) ∷ later) r =
    let r' = run_rounds between r in
    let next = await decode needle deadline later r' in
    elim (poll decode needle deadline now r') [
      | none ↦ next
      | some (answer, r'') ↦ replied answer r''
    ]

-- `read_until`, over what happens before each round and the clock at the round.
pub read_until : (Bytes → Bytes) → Bytes → ℕ → ℕ → List (Between × ℕ) → SerialReader → Outcome
unfolding await
read_until decode [] timeout start schedule r = empty_pattern
read_until decode (b ∷ bs) timeout start schedule r =
    await decode (b ∷ bs) (start + timeout) schedule r

-- `start`
pub start : SerialReader → SerialReader
start r = elim r.thread [ some alive ↦ r | none ↦ record r { stop = false; thread = some true } ]

-- The probe of `in_waiting` in `stop`: a value, None, or one of the caught errors.
pub data Probe : Type 0 where
  value : ℕ → Probe
  nothing raised : Probe

pollable : Probe → Bool
pollable (value n) = true
pollable nothing = false
pollable raised = false

join : Bool → SerialReader → SerialReader × Bool
join died r = if died then (record r { thread = none }, true) else (r, false)

-- `stop`: whether `cancel_read` was called, the reader, and the answer. `died` says whether the
-- thread was dead when `join` returned.
pub stop : Probe → Bool → Bool → SerialReader → Bool × SerialReader × Bool
unfolding pollable join
stop probe can_cancel died r =
    let r' : SerialReader = record r { stop = true } in
    elim r.thread [
      | none ↦ (false, r', true)
      | some alive ↦
          let (r'', answer) = join died r' in (not (pollable probe) && can_cancel, r'', answer)
    ]
