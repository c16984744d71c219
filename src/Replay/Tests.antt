-- ===== src/Replay/Tests.antt =====
-- Replays of a small journal.
use ironharness.Prelude.{◌≡◌, ◌↔◌, refl, true, none, some, List, [], ◌∷◌, arith, Bytes, String}
use ironharness.Prelude.Dict.{Dict, lookup, insert}
use ironharness.Prelude.Hex.{hex, from_hex}
use ironharness.Prelude.Search.{find, starts_with}
use ironharness.Replay.{
  Event, Kind, read, write, read_line, other, ReplayTransport, fresh, init, session,
  read_line_bytes,
}
use ironharness.Replay.Strict.{accepts, unwritten, accepts_iff}

abbrev event : String → Kind → Bytes → Event
event conn kind bytes = record { conn = some conn; kind = kind; data_hex = some (hex bytes) }

abbrev journal : List Event
journal =
    event "a" write (1 ∷ 2 ∷ [])
    ∷ event "b" read (9 ∷ [])
    ∷ event "a" read (7 ∷ 10 ∷ [])
    ∷ event "a" other []
    ∷ event "a" read_line (8 ∷ 10 ∷ [])
    ∷ event "a" write (3 ∷ [])
    ∷ []

abbrev device_a : ReplayTransport
device_a = record (fresh true "a") {
  read_stream = 7 ∷ 10 ∷ 8 ∷ 10 ∷ [];
  write_stream = 1 ∷ 2 ∷ 3 ∷ [];
}

abbrev device_b : ReplayTransport
device_b = record (fresh true "b") { read_stream = 9 ∷ [] }

abbrev devices : Dict ReplayTransport
devices = ("a", device_a) ∷ ("b", device_b) ∷ []

session_loads : session true journal ≡ some devices
unfolding session hex from_hex lookup insert
session_loads = refl

loads_nothing_corrupt :
    init (record { conn = none; kind = read; data_hex = none } ∷ []) true "" ≡ none
unfolding init
loads_nothing_corrupt = refl

first_line : (read_line_bytes 256 device_a).0 ≡ 7 ∷ 10 ∷ []
unfolding read_line_bytes find starts_with
first_line = refl

accepts_iff_example :
    (accepts ((1 ∷ []) ∷ (2 ∷ 3 ∷ []) ∷ []) device_a ≡ true) ↔ (1 ∷ 2 ∷ 3 ∷ [] ≡ unwritten device_a)
accepts_iff_example =
    accepts_iff ((1 ∷ []) ∷ (2 ∷ 3 ∷ []) ∷ []) device_a
      (record { strict = refl; not_closed = refl; within = omega arith })
