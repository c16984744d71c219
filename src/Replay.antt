-- ===== src/Replay.antt =====
-- src/io_core/replay.py: a recorded session answers again, connection by connection.
--
-- An event is what the replayer reads of a journal record: `conn` (already passed through `str`),
-- `kind`, and `data_hex` as a text, none where the key is missing. `none` as a result of a
-- construction is `JournalCorrupt`.
pub mod Slicing
pub mod Strict
pub mod Session
mod Tests
use ironharness.Prelude.{
  ℕ, zero, suc, ◌+◌, ◌-◌, ◌≡◌, Bool, true, false, ◌&&◌, Option, none, some, List, [], ◌∷◌, ◌++◌,
  String, Bytes, length, take, drop, ltb, if◌then◌else◌,
}
use ironharness.Prelude.Search.{find, same_bytes}
use ironharness.Prelude.Hex.{from_hex}
use ironharness.Prelude.Dict.{Dict, same, lookup, insert}

pub data Kind : Type 0 where
  read read_line write other : Kind

pub record Event : Type 0 where
  pub conn : Option String
  pub kind : Kind
  pub data_hex : Option Bytes

-- `str(e.get("conn", LEGACY_CONN))`
abbrev pub conn_of : Event → String
conn_of e = elim e.conn [ none ↦ "" | some conn ↦ conn ]

-- `_event_bytes`
pub event_bytes : Event → Option Bytes
event_bytes e = elim e.data_hex [ none ↦ none | some text ↦ from_hex text ]

pub record ReplayTransport : Type 0 where
  pub strict : Bool
  pub conn : String
  pub read_stream : Bytes
  pub write_stream : Bytes
  pub rpos : ℕ
  pub wpos : ℕ
  pub closed : Bool

append_read : Option Bytes → ReplayTransport → Option ReplayTransport
append_read none t = none
append_read (some bytes) t = some (record t { read_stream = t.read_stream ++ bytes })

append_write : Option Bytes → ReplayTransport → Option ReplayTransport
append_write none t = none
append_write (some bytes) t = some (record t { write_stream = t.write_stream ++ bytes })

-- One event of the loop of the constructor, past the test of its connection.
pub take_event : Kind → Option Bytes → ReplayTransport → Option ReplayTransport
unfolding append_read append_write
take_event read bytes t = append_read bytes t
take_event read_line bytes t = append_read bytes t
take_event write bytes t = append_write bytes t
take_event other bytes t = some t

pub load : List Event → ReplayTransport → Option ReplayTransport
unfolding take_event event_bytes
load [] t = some t
load (e ∷ events) t =
    let skipped = load events t in
    let loaded : Option ReplayTransport = elim (take_event e.kind (event_bytes e) t) [
      | none ↦ none
      | some t' ↦ load events t'
    ] in
    if same (conn_of e) t.conn then loaded else skipped

abbrev pub fresh : Bool → String → ReplayTransport
fresh strict conn = record {
  strict = strict;
  conn = conn;
  read_stream = [];
  write_stream = [];
  rpos = 0;
  wpos = 0;
  closed = false;
}

-- `ReplayTransport(events, strict=..., conn=...)`
pub init : List Event → Bool → String → Option ReplayTransport
unfolding load
init events strict conn = load events (fresh strict conn)

-- stream[start:stop]
pub slice : Bytes → ℕ → ℕ → Bytes
slice stream start stop = take (stop - start) (drop start stream)

pub read_bytes : ℕ → ReplayTransport → Bytes × ReplayTransport
unfolding slice
read_bytes size t =
    let chunk = slice t.read_stream t.rpos (t.rpos + size) in
    (chunk, record t { rpos = t.rpos + length chunk })

-- `read_line`: `find` looks in stream[rpos : rpos + max_len].
line_stop : ReplayTransport → ℕ → ℕ
unfolding slice
line_stop t max_len = elim (find (10 ∷ []) (slice t.read_stream t.rpos (t.rpos + max_len))) [
  | none ↦ t.rpos + max_len
  | some at ↦ t.rpos + at + 1
]

pub read_line_bytes : ℕ → ReplayTransport → Bytes × ReplayTransport
unfolding slice line_stop
read_line_bytes max_len t =
    let chunk = slice t.read_stream t.rpos (line_stop t max_len) in
    (chunk, record t { rpos = t.rpos + length chunk })

-- `none` is ReplayMismatch, which leaves the transport as it was.
pub write_bytes : Bytes → ReplayTransport → Option ReplayTransport
unfolding slice
write_bytes bytes t =
    let recorded = slice t.write_stream t.wpos (t.wpos + length bytes) in
    let moved : ReplayTransport = record t { wpos = t.wpos + length bytes } in
    if t.strict then (if same_bytes bytes recorded then some moved else none) else some moved

-- `close`: whether it raises ReplayMismatch, and the transport, which is closed either way.
pub close : ReplayTransport → Bool × ReplayTransport
close t =
    if t.closed
    then (false, t)
    else (t.strict && ltb t.wpos (length t.write_stream), record t { closed = true })

-- The loop of `ReplaySession` that groups the events.
pub append_event : Option (List Event) → Event → List Event
append_event none e = e ∷ []
append_event (some group) e = group ++ e ∷ []

pub groups : List Event → Dict (List Event) → Dict (List Event)
unfolding append_event
groups [] g = g
groups (e ∷ events) g = groups events (insert (conn_of e) (append_event (lookup (conn_of e) g) e) g)

-- One entry of the comprehension over the groups; either exception ends it.
pub attach :
    String → Option ReplayTransport → Option (Dict ReplayTransport) → Option (Dict ReplayTransport)
attach conn none later = none
attach conn (some t) none = none
attach conn (some t) (some ts) = some ((conn, t) ∷ ts)

pub transports : Bool → Dict (List Event) → Option (Dict ReplayTransport)
unfolding init attach
transports strict [] = some []
transports strict ((conn, group) ∷ rest) =
    attach conn (init group strict conn) (transports strict rest)

-- `ReplaySession(events, strict=...)`: `conns` in the order of first appearance.
pub session : Bool → List Event → Option (Dict ReplayTransport)
unfolding groups transports
session strict events = transports strict (groups events [])
