-- ===== src/Exchange/Tests.antt =====
-- Runs of serial_put, serial_get and serial_monitor on a session with one serial connection.
use ironharness.Prelude.{ℕ, ◌≡◌, refl, inl, true, false, none, some, List, [], ◌∷◌, length, arith}
use ironharness.Prelude.Dict.{has, lookup, insert, remove}
use ironharness.Session.{Session, init, serial, entry, refuse, note, check_open, os_error}
use ironharness.Session.Line.{
  gate, end_transfer, no_reader, found, no_transfer, no_monitor, begin_transfer,
}
use ironharness.Capture.{Round}
use ironharness.Capture.Ending.{here, there}
use ironharness.Mprepl
use ironharness.Exchange.{
  Others, returned, raises, MonitorArgs, serial_put, serial_get, serial_monitor, on, admitted,
  fail_as, return_as, put_ends, raised_by,
}
use ironharness.Exchange.Released.{serial_transfer-Freed, serial_monitor-Freed}

abbrev one : Session
one = record init {
  transports = ("dev", 0) ∷ [];
  kinds = ("dev", serial) ∷ [];
  serial_base = ("dev", 0) ∷ [];
}

-- No other thread does anything.
abbrev nobody : Others
nobody = record {
  before_gate = λ s. s;
  meanwhile = λ s. s;
  before_release = λ s. s;
  after_release = λ s. s;
}

-- Another thread closes the journal during the work, and starts a monitor on another name, behind
-- the gate and behind the release.
abbrev somebody : Others
somebody = record {
  before_gate = begin_other;
  meanwhile = λ s. record s { journal_closed = true };
  before_release = λ s. s;
  after_release = begin_other;
}
  where
    begin_other : Session → Session
    begin_other s = record s { monitors = ("lab", tt) ∷ s.monitors }

-- The board fails the transfer: one entry, and what is raised.
put_fails :
    serial_put true (some (1 ∷ [])) (λ _. Mprepl.err Mprepl.timeout) nobody "dev" one
    ≡ (raises os_error, record one { journal = entry "serial_put_failed" "dev" ∷ [] })
unfolding init serial_put admitted on check_open gate no_reader found no_transfer no_monitor
    begin_transfer put_ends fail_as refuse end_transfer raised_by lookup insert remove
put_fails = refl

put_works :
    serial_put true (some (1 ∷ [])) (λ text. Mprepl.ok (length text)) nobody "dev" one
    ≡ (returned 1, record one { journal = entry "serial_put" "dev" ∷ [] })
unfolding init serial_put admitted on check_open gate no_reader found no_transfer no_monitor
    begin_transfer put_ends return_as note end_transfer raised_by lookup insert remove
put_works = refl

serial_transfer-Freed_example :
    (has "dev"
        (serial_put true
          (some (1 ∷ []))
          (λ _. Mprepl.err Mprepl.timeout)
          somebody
          "dev"
          one).1.transfers
      ≡ false)
    × (has "dev"
          (serial_get true
            (Mprepl.ok (1 ∷ 2 ∷ []))
            (λ text. inl (length text))
            somebody
            "dev"
            one).1.transfers
        ≡ false)
unfolding init lookup
serial_transfer-Freed_example =
    serial_transfer-Freed "dev" true (some (1 ∷ [])) (λ _. Mprepl.err Mprepl.timeout)
      (Mprepl.ok (1 ∷ 2 ∷ [])) (λ text. inl (length text)) somebody one (λ s e. e) (λ s e. e) refl

abbrev args : MonitorArgs
args = record {
  max_bytes = 100;
  max_seconds = 5;
  quiet_seconds = none;
  stop_pattern = none;
  dump_path = some (97 ∷ []);
}

abbrev silence : ℕ → Round
silence t = record { now = t; waiting = some 0; read = λ size. none; read_at = t }

abbrev night : List Round
night = silence 1 ∷ silence 9 ∷ []

serial_monitor-Freed_example :
    has "dev" (serial_monitor args true 0 night false somebody "dev" one).1.monitors ≡ false
unfolding init lookup
serial_monitor-Freed_example =
    serial_monitor-Freed "dev" args true 0 night false somebody one (λ s e. e) (λ s e. e)
      ((λ size chunk e. cc e), ((λ size chunk e. cc e), tt)) (there (here (omega arith))) refl
