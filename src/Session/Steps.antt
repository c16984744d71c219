-- ===== src/Session/Steps.antt =====
-- Runs of a session as sequences of its locked blocks, from any number of threads, and the
-- invariant of the registries.
use ironharness.Prelude.{ℕ, Bool, Option, List, [], ◌∷◌, String, if_ind}
use ironharness.Prelude.Dict.{has, insert, remove}
use ironharness.Session.{
  Session, Kind, Outcome, key_error, runtime_error, Error, refuse, note, is_kind, init,
}
use ironharness.Session.Line.{
  LineOp, write, read, read_line, put, get, monitor, reader_start, gate, gate_reset, gate_typed,
  end_transfer, end_monitor, reader_stop, drop_reader, begin_transfer, begin_monitor, attach_reader,
  found_serial, found, no_reader, no_transfer, no_monitor, go, bounded,
}
use ironharness.Session.Closing.{Kept, register-Inv, close_typed-Inv, close_transport-Inv}
use ironharness.Session.Rules.{
  found_serial_rule, found_rule, no_reader_rule, no_transfer_rule, no_monitor_rule, has_base_rule,
  bounded_rule,
}
use ironharness.Session.View.{
  Inv, refuse-Inv, note-Inv, transfer-Inv, monitor-Inv, reader-Inv, transfer_end-Inv,
  monitor_end-Inv, reader_end-Inv,
}
use ironharness.Session.Registry.{clear-Inv, init-Inv}
use ironharness.Session.Life.{
  Reaction, register, close_typed, close_transport, close_flag, close_clear, close_journal,
}

-- One locked block, or what stands between two: the actions that any thread may take next.
pub data Action : Type 0 where
  line : LineOp → String → Action
  reset : String → Action
  typed : Kind → String → String → Action
  ends_transfer ends_monitor : String → Action
  stops_reader : Bool → String → Action
  -- the block of `serial_reader_stop` without the entry that comes after it
  drops_reader : String → Action
  registers : Kind → Option ℕ → String → ℕ → Reaction → Action
  closes_typed : Kind → Bool → String → Reaction → Action
  -- with a reaction that does nothing, the block alone
  closes : Bool → String → Reaction → Action
  -- a transport journals, or `close` does
  notes : String → String → Action
  flags clears shuts : Action

unfoldable pub step : Action → Session → Session
step (line op name) s = (gate op name s).1
step (reset name) s = (gate_reset name s).1
step (typed kind kind_name name) s = (gate_typed kind kind_name name s).1
step (ends_transfer name) s = end_transfer name s
step (ends_monitor name) s = end_monitor name s
step (stops_reader stopped name) s = (reader_stop stopped name s).1
step (drops_reader name) s = drop_reader name s
step (registers kind limit name t opening) s = (register kind limit name t opening s).1
step (closes_typed kind stopped name closing) s = (close_typed kind stopped name closing s).1
step (closes stopped name closing) s = (close_transport stopped name closing s).1
step (notes kind_name name) s = (note kind_name name s).1
step flags s = close_flag s
step clears s = close_clear s
step shuts s = close_journal s

unfoldable pub steps : List Action → Session → Session
steps [] s = s
steps (a ∷ later) s = steps later (step a s)

module _ (name : String) (s : Session) (v : Inv s) where
  no : (kind_name : String) (e : Error) → Kept (refuse kind_name name e s)
  no kind_name e = refuse-Inv kind_name name e s v

  -- The guards of two families of gates.
  idle_line :
      (kind_name : String) (next : Session → Outcome × Session)
      → Kept (next s)
      → Kept (no_transfer kind_name name (no_monitor kind_name name next) s)
  idle_line kind_name next k =
      no_transfer_rule Kept name s no kind_name _
        λ _. no_monitor_rule Kept name s no kind_name _ λ _. k

  transfer_gate :
      (first second third : String)
      → Kept (
          no_reader first name runtime_error
            (found second name
              (no_transfer "transfer_refused" name (no_monitor third name (begin_transfer name))))
            s)
  unfolding begin_transfer
  transfer_gate first second third = no_reader_rule Kept name s no first _ _ λ r.
      found_rule Kept name s no second _ λ _.
        no_transfer_rule Kept name s no _ _
          λ _. no_monitor_rule Kept name s no third _ λ m. transfer-Inv name s v r m

  read_gate :
      (size : ℕ) (first second : String)
      → Kept (
          bounded 1 size 1048576 first name
            (no_reader first name runtime_error
              (no_transfer first name (no_monitor first name (found_serial second name go))))
            s)
  unfolding go
  read_gate size first second = bounded_rule Kept name s no 1 size 1048576 first _ (
      no_reader_rule Kept name s no first _ _
        λ _. idle_line first _ (found_serial_rule Kept name s no second _ λ _ _. v))

  -- Every gate keeps the registries in order, whether it lets the call through or not.
  gate-Inv : (op : LineOp) → Kept (gate op name s)
  unfolding gate go begin_monitor attach_reader
  gate-Inv write = found_serial_rule Kept name s no _ _ λ _ _. idle_line _ _ v
  gate-Inv (read size) = read_gate size _ _
  gate-Inv (read_line max_len) = read_gate max_len _ _
  gate-Inv put = transfer_gate _ _ _
  gate-Inv get = transfer_gate _ _ _
  gate-Inv monitor = no_reader_rule Kept name s no _ _ _ λ r.
      no_transfer_rule Kept name s no _ _ λ x.
        no_monitor_rule Kept name s no _ _
          λ _. found_rule Kept name s no _ _ λ _. monitor-Inv name s v r x
  gate-Inv (reader_start max_bytes) = bounded_rule Kept name s no _ max_bytes _ _ _ (
      has_base_rule Kept name s no _ λ b. no_reader_rule Kept name s no _ _ _ λ _.
        no_transfer_rule Kept name s no _ _ λ x. no_monitor_rule Kept name s no _ _ λ m.
          note-Inv "reader_start" name (record s { readers = insert name 0 s.readers })
            (reader-Inv name s v b x m))

  reset-Inv : Kept (gate_reset name s)
  unfolding gate_reset go
  reset-Inv = found_serial_rule Kept name s no _ _ λ _ _. v

  typed-Inv : (kind : Kind) (kind_name : String) → Kept (gate_typed kind kind_name name s)
  unfolding gate_typed
  typed-Inv kind kind_name =
      if_ind Kept (has name s.transports)
        (λ _. if_ind Kept (is_kind kind name s) (λ _. v) (λ _. no kind_name key_error))
        (λ _. no kind_name key_error)

  reader_stop-Inv : (stopped : Bool) → Kept (reader_stop stopped name s)
  unfolding reader_stop drop_reader
  reader_stop-Inv stopped =
      if_ind Kept (has name s.readers)
        (λ _.
          if_ind Kept stopped
            (λ _.
              note-Inv "reader_stop" name (record s { readers = remove name s.readers })
                (reader_end-Inv name s v))
            (λ _. note-Inv "reader_stop_failed" name s v))
        (λ _. no "reader_stop_failed" key_error)

step-Inv : (a : Action) (s : Session) → Inv s → Inv (step a s)
unfolding step end_transfer end_monitor drop_reader close_flag close_journal
step-Inv (line op name) s v = gate-Inv name s v op
step-Inv (reset name) s v = reset-Inv name s v
step-Inv (typed kind kind_name name) s v = typed-Inv name s v kind kind_name
step-Inv (ends_transfer name) s v = transfer_end-Inv name s v
step-Inv (ends_monitor name) s v = monitor_end-Inv name s v
step-Inv (stops_reader stopped name) s v = reader_stop-Inv name s v stopped
step-Inv (drops_reader name) s v = reader_end-Inv name s v
step-Inv (registers kind limit name t opening) s v = register-Inv name s v kind limit t opening
step-Inv (closes_typed kind stopped name closing) s v =
    close_typed-Inv name s v kind stopped closing
step-Inv (closes stopped name closing) s v = close_transport-Inv name s v stopped closing
step-Inv (notes kind_name name) s v = note-Inv kind_name name s v
step-Inv flags s v = record { at = v.at }
step-Inv clears s v = clear-Inv s v
step-Inv shuts s v = record { at = v.at }

steps-Inv : (actions : List Action) (s : Session) → Inv s → Inv (steps actions s)
unfolding steps
steps-Inv [] s v = v
steps-Inv (a ∷ later) s v = steps-Inv later (step a s) (step-Inv a s v)

-- In a session that started empty, after any interleaving of the locked blocks of any threads and
-- for every name: the transport and the kind registries agree, a raw serial handle is kept exactly
-- for an open serial connection, a reader has such a handle, and of a reader, a transfer and a
-- monitor at most one has the name.
pub steps-init-Inv : (actions : List Action) → Inv (steps actions init)
steps-init-Inv actions = steps-Inv actions init init-Inv
