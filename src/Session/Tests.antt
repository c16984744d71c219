-- ===== src/Session/Tests.antt =====
-- The session at concrete inputs: a board on one serial connection.
use ironharness.Prelude.{some, arith, ◌≡◌, ◌≢◌, refl, true, none, [], ◌∷◌}
use ironharness.Prelude.Dict.{has, lookup, insert}
use ironharness.Session.{Session, init, serial, passed, check_open, is_kind}
use ironharness.Session.Line.{write, read, put, reader_start, gate}
use ironharness.Session.Life.{register, serial_open}
use ironharness.Session.View.{Inv}
use ironharness.Session.Steps.{steps, line, registers, closes, flags, clears, shuts, steps-init-Inv}
use ironharness.Session.Exclusion.{busy, Raised, gate-Raised}
use ironharness.Session.Admitted.{Idle}
use ironharness.Session.Race.{opens, late_open-stays}

-- An open board.
abbrev board : Session
board = record init {
  transports = ("board", 7) ∷ [];
  kinds = ("board", serial) ∷ [];
  serial_base = ("board", 7) ∷ [];
}

abbrev sending : Session
sending = record board { transfers = ("board", tt) ∷ [] }

abbrev watched : Session
watched = record board { readers = ("board", 0) ∷ [] }

board_opens : (serial_open true 1 true none "board" 7 (opens []) init).1 ≡ board
unfolding serial_open init lookup insert
board_opens = refl

steps-init-Inv_example : Inv (
    steps
      (registers serial none "board" 7 (opens [])
        ∷ line (reader_start 4096) "board"
        ∷ line put "board"
        ∷ closes true "board" (opens [])
        ∷ [])
      init)
steps-init-Inv_example = steps-init-Inv (
    registers serial none "board" 7 (opens [])
    ∷ line (reader_start 4096) "board"
    ∷ line put "board"
    ∷ closes true "board" (opens [])
    ∷ [])

sending-busy : busy "board" sending ≡ true
unfolding lookup init
sending-busy = refl

gate-Raised_example : Raised (gate (read 64) "board" sending)
gate-Raised_example = gate-Raised "board" sending sending-busy (read 64)

watched_has_reader : has "board" watched.readers ≡ true
unfolding lookup init
watched_has_reader = refl

put_is_no_write : put ≢ write
put_is_no_write e = cc

board-Idle : Idle "board" board
unfolding lookup is_kind init
board-Idle = record {
  connected = refl;
  is_serial = refl;
  raw = refl;
  unread = refl;
  untransferred = refl;
  unmonitored = refl;
  logging = refl;
}

late_open-stays_example :
    (check_open init ≡ passed)
    × ((register serial
          (some 4)
          "board"
          7
          (opens ("open" ∷ []))
          (steps (flags ∷ clears ∷ []) init)).0
        ≡ passed)
    × ((steps
          (flags ∷ clears ∷ registers serial (some 4) "board" 7 (opens ("open" ∷ [])) ∷ shuts ∷ [])
          init).closed
        ≡ true)
    × ((steps
          (flags ∷ clears ∷ registers serial (some 4) "board" 7 (opens ("open" ∷ [])) ∷ shuts ∷ [])
          init).journal_closed
        ≡ true)
    × (has "board"
          (steps
            (flags
              ∷ clears
              ∷ registers serial (some 4) "board" 7 (opens ("open" ∷ []))
              ∷ shuts
              ∷ [])
            init).transports
        ≡ true)
unfolding init
late_open-stays_example =
    late_open-stays serial (some 4) "board" 7 ("open" ∷ []) init (omega arith) refl refl
