-- ===== src/Session/Line.antt =====
-- The gates of the operations that use the line of one serial connection, and of the Modbus and
-- MQTT operations. Each is the block that the source runs before it touches the transport.
use ironharness.Prelude.{ℕ, Bool, ◌&&◌, String, if◌then◌else◌, leb}
use ironharness.Prelude.Dict.{has, insert, remove}
use ironharness.Session.{
  Session, Kind, serial, Outcome, passed, key_error, runtime_error, value_error, refuse, note,
  is_kind, Error,
}

-- `size` of serial_read, `max_len` of serial_read_line, `max_bytes` of serial_reader_start.
pub data LineOp : Type 0 where
  write : LineOp
  read read_line : ℕ → LineOp
  put get monitor : LineOp
  reader_start : ℕ → LineOp

-- `_get`, then the test of the kind; both leave `kind_name` in the journal.
unfoldable pub found_serial :
    String → String → (Session → Outcome × Session) → Session → Outcome × Session
found_serial kind_name name next s =
    if has name s.transports
    then (if is_kind serial name s then next s else refuse kind_name name key_error s)
    else refuse kind_name name key_error s

unfoldable pub found : String → String → (Session → Outcome × Session) → Session → Outcome × Session
found kind_name name next s =
    if has name s.transports then next s else refuse kind_name name key_error s

unfoldable pub no_reader :
    String → String → Error → (Session → Outcome × Session) → Session → Outcome × Session
no_reader kind_name name error next s =
    if has name s.readers then refuse kind_name name error s else next s

unfoldable pub no_transfer :
    String → String → (Session → Outcome × Session) → Session → Outcome × Session
no_transfer kind_name name next s =
    if has name s.transfers then refuse kind_name name runtime_error s else next s

unfoldable pub no_monitor :
    String → String → (Session → Outcome × Session) → Session → Outcome × Session
no_monitor kind_name name next s =
    if has name s.monitors then refuse kind_name name runtime_error s else next s

unfoldable pub go : Session → Outcome × Session
go s = (passed, s)

unfoldable pub begin_transfer : String → Session → Outcome × Session
begin_transfer name s = (passed, record s { transfers = insert name tt s.transfers })

unfoldable pub begin_monitor : String → Session → Outcome × Session
begin_monitor name s = (passed, record s { monitors = insert name tt s.monitors })

-- The new reader has handle 0; it is registered before it is journaled.
unfoldable pub attach_reader : String → Session → Outcome × Session
attach_reader name s = note "reader_start" name (record s { readers = insert name 0 s.readers })

unfoldable pub has_base : String → (Session → Outcome × Session) → Session → Outcome × Session
has_base name next s =
    if has name s.serial_base then next s else refuse "reader_start_failed" name key_error s

unfoldable pub bounded :
    ℕ → ℕ → ℕ → String → String → (Session → Outcome × Session) → Session → Outcome × Session
bounded low size high kind_name name next s =
    if leb low size && leb size high then next s else refuse kind_name name value_error s

gate_write : String → Session → Outcome × Session
gate_write name =
    found_serial "write_failed" name
      (no_transfer "write_refused" name (no_monitor "write_refused" name go))

gate_read : ℕ → String → Session → Outcome × Session
gate_read size name = bounded 1 size 1048576 "read_refused" name (
    no_reader "read_refused" name runtime_error (
      no_transfer "read_refused" name
        (no_monitor "read_refused" name (found_serial "read_failed" name go))))

gate_read_line : ℕ → String → Session → Outcome × Session
gate_read_line max_len name = bounded 1 max_len 1048576 "read_line_refused" name (
    no_reader "read_line_refused" name runtime_error (
      no_transfer "read_line_refused" name
        (no_monitor "read_line_refused" name (found_serial "read_line_failed" name go))))

-- serial_put and serial_get: no test of the kind here.
gate_put : String → Session → Outcome × Session
gate_put name = no_reader "put_refused" name runtime_error (
    found "put_failed" name
      (no_transfer "transfer_refused" name (no_monitor "put_refused" name (begin_transfer name))))

gate_get : String → Session → Outcome × Session
gate_get name = no_reader "get_refused" name runtime_error (
    found "get_failed" name
      (no_transfer "transfer_refused" name (no_monitor "get_refused" name (begin_transfer name))))

gate_monitor : String → Session → Outcome × Session
gate_monitor name = no_reader "monitor_refused" name runtime_error (
    no_transfer "monitor_refused" name
      (no_monitor "monitor_refused" name (found "monitor_failed" name (begin_monitor name))))

gate_reader_start : ℕ → String → Session → Outcome × Session
gate_reader_start max_bytes name = bounded 512 max_bytes 16777216 "reader_start_refused" name (
    has_base name (
      no_reader "reader_start_refused" name key_error (
        no_transfer "reader_start_refused" name
          (no_monitor "reader_start_refused" name (attach_reader name)))))

unfoldable pub gate : LineOp → String → Session → Outcome × Session
unfolding gate_write gate_read gate_read_line gate_put gate_get gate_monitor gate_reader_start
gate write name s = gate_write name s
gate (read size) name s = gate_read size name s
gate (read_line max_len) name s = gate_read_line max_len name s
gate put name s = gate_put name s
gate get name s = gate_get name s
gate monitor name s = gate_monitor name s
gate (reader_start max_bytes) name s = gate_reader_start max_bytes name s

-- The end of serial_put and serial_get (`finally`), and of serial_monitor.
unfoldable pub end_transfer : String → Session → Session
end_transfer name s = record s { transfers = remove name s.transfers }

unfoldable pub end_monitor : String → Session → Session
end_monitor name s = record s { monitors = remove name s.monitors }

-- `serial_reset` is not gated against transfers and monitors.
unfoldable pub gate_reset : String → Session → Outcome × Session
gate_reset name = found_serial "reset_failed" name go

-- modbus_read, modbus_write, mqtt_publish, mqtt_subscribe, mqtt_read: `_get` and the kind.
unfoldable pub gate_typed : Kind → String → String → Session → Outcome × Session
gate_typed kind kind_name name s =
    if has name s.transports
    then (if is_kind kind name s then (passed, s) else refuse kind_name name key_error s)
    else refuse kind_name name key_error s

unfoldable pub drop_reader : String → Session → Session
drop_reader name s = record s { readers = remove name s.readers }

-- `serial_reader_stop`: `stopped` is what `reader.stop()` answers.
unfoldable pub reader_stop : Bool → String → Session → Outcome × Session
reader_stop stopped name s =
    if has name s.readers
    then (if stopped
        then note "reader_stop" name (drop_reader name s)
        else note "reader_stop_failed" name s)
    else refuse "reader_stop_failed" name key_error s
