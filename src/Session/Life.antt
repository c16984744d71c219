-- ===== src/Session/Life.antt =====
-- Opening and closing: the registry inserts, `_close_typed`, `close_transport` and `close`.
use ironharness.Prelude.{
  ℕ, Bool, true, Option, none, some, List, [], ◌∷◌, ◌++◌, map, String, length, leb, ltb, ◌&&◌, not,
  if◌then◌else◌,
}
use ironharness.Prelude.Dict.{Dict, has, insert, remove}
use ironharness.Session.{
  Session, Kind, serial, entry, Outcome, passed, raised, Error, key_error, value_error,
  policy_violation, os_error, refuse, note, is_kind, check_open,
}

-- What a call of a transport does to the session: the entries that it journals through its hook,
-- under its own name, and what it raises.
pub record Reaction : Type 0 where
  pub emits : List String
  pub error : Option Error

unfoldable pub outcome_of : Option Error → Outcome
outcome_of none = passed
outcome_of (some e) = raised e

-- Emitting into a closed journal raises; so does the first entry of several.
unfoldable pub react : String → Reaction → Session → Outcome × Session
unfolding outcome_of
react name r s = elim r.emits [
  | [] ↦ (outcome_of r.error, s)
  | kind ∷ kinds ↦ if s.journal_closed then (raised value_error, s) else (
    outcome_of r.error,
    record s { journal = s.journal ++ map (λ k. entry k name) (kind ∷ kinds) },
  )
]

-- A step after which the next one runs only if it returned.
unfoldable pub and_then : Outcome × Session → (Session → Outcome × Session) → Outcome × Session
and_then (passed, s) next = next s
and_then (raised e, s) next = (raised e, s)

-- `_check_connection_limit`; the entry has no conn.
unfoldable pub under_limit : Option ℕ → (Session → Outcome × Session) → Session → Outcome × Session
under_limit none next s = next s
under_limit (some limit) next s =
    if leb limit (length s.transports)
    then refuse "policy_violation" "" policy_violation s
    else next s

-- The three inserts after `t.open()`.
unfoldable pub insert_transport : Kind → String → ℕ → Session → Session
insert_transport serial name t s = record s {
  transports = insert name t s.transports;
  kinds = insert name serial s.kinds;
  serial_base = insert name t s.serial_base;
}
insert_transport kind name t s = record s {
  transports = insert name t s.transports;
  kinds = insert name kind s.kinds;
}

-- The block under the lock of serial_open, modbus_open and mqtt_open, from `_check_free` on. `t`
-- is the handle of the new transport and `opening` what its `open` does.
unfoldable pub register : Kind → Option ℕ → String → ℕ → Reaction → Session → Outcome × Session
unfolding react and_then under_limit insert_transport
register kind limit name t opening s =
    if has name s.transports
    then refuse "open_refused" name key_error s
    else under_limit limit
        (λ s'. and_then (react name opening s') (λ s''. (passed, insert_transport kind name t s'')))
        s

-- `serial_open`: the gates before the block. `enabled` is the kinds policy, `resolved` whether a
-- `by-serial:` port was found (true for any other port).
unfoldable pub serial_open :
    Bool → ℕ → Bool → Option ℕ → String → ℕ → Reaction → Session → Outcome × Session
unfolding register
serial_open enabled timeout resolved limit name t opening s =
    if s.closed
    then (check_open s, s)
    else if not enabled
    then refuse "policy_violation" "" policy_violation s
    else if not (ltb 0 timeout && leb timeout 600)
    then refuse "serial_open_refused" name value_error s
    else if not resolved
    then refuse "serial_open_refused" name value_error s
    else register serial limit name t opening s

-- `modbus_open` and `mqtt_open`: the policy is asked after the bound, under the lock.
pub net_open :
    Kind → String → Bool → ℕ → Option ℕ → String → ℕ → Reaction → Session → Outcome × Session
unfolding register
net_open kind refused enabled timeout limit name t opening s =
    if s.closed
    then (check_open s, s)
    else if not (ltb 0 timeout && leb timeout 600)
    then refuse refused name value_error s
    else if not enabled
    then refuse "policy_violation" "" policy_violation s
    else register kind limit name t opening s

-- `_stop_reader(name, implicit=True)`
unfoldable pub stop_reader : Bool → String → Session → Outcome × Session
stop_reader stopped name s =
    if has name s.readers
    then note (if stopped then "reader_stop" else "reader_stop_failed") name
        (record s { readers = remove name s.readers })
    else (passed, s)

unfoldable pub free_name : String → Session → Session
free_name name s = record s {
  transports = remove name s.transports;
  kinds = remove name s.kinds;
  serial_base = remove name s.serial_base;
}

-- `except OSError`: journaled once more and raised again.
unfoldable pub trace_close : String → Outcome × Session → Outcome × Session
trace_close name (raised os_error, s) = refuse "close_failed" name os_error s
trace_close name (o, s) = (o, s)

-- The part of the two close methods from the reader on.
unfoldable pub close_found : Bool → String → Reaction → Session → Outcome × Session
unfolding stop_reader free_name trace_close react and_then
close_found stopped name closing s =
    and_then (stop_reader stopped name s)
      (λ s'. trace_close name (react name closing (free_name name s')))

-- `_close_typed`
unfoldable pub close_typed : Kind → Bool → String → Reaction → Session → Outcome × Session
unfolding close_found
close_typed kind stopped name closing s =
    if has name s.transports
    then (if is_kind kind name s
        then close_found stopped name closing s
        else refuse "close_failed" name key_error s)
    else refuse "close_failed" name key_error s

unfoldable pub close_transport : Bool → String → Reaction → Session → Outcome × Session
unfolding close_found
close_transport stopped name closing s =
    if has name s.transports
    then close_found stopped name closing s
    else refuse "close_failed" name key_error s

-- `close`: the flag, set before the lock is taken; the block under the lock; the rest, which works
-- on the two lists that the block has taken; the journal.
unfoldable pub close_flag : Session → Session
close_flag s = record s { closed = true }

unfoldable pub close_clear : Session → Session
close_clear s = record s { transports = []; kinds = []; serial_base = []; readers = [] }

pub keep_first : Option Error → Outcome → Option Error
keep_first (some e) o = some e
keep_first none passed = none
keep_first none (raised e) = some e

pub close_readers : (String → Bool) → Dict ℕ → Option Error → Session → Option Error × Session
unfolding keep_first
close_readers stopped [] first s = (first, s)
close_readers stopped ((name, reader) ∷ rest) first s =
    let (o, s') = note (if stopped name then "reader_stop" else "reader_stop_failed") name s in
    close_readers stopped rest (keep_first first o) s'

-- Whatever a transport raises is journaled and kept; the journal is still open here unless an
-- earlier `close` has closed it.
noted_close : String → Outcome × Session → Outcome × Session
noted_close name (passed, s) = (passed, s)
noted_close name (raised e, s) = refuse "close_failed" name e s

pub close_transports :
    (String → Reaction) → Dict ℕ → Option Error → Session → Option Error × Session
unfolding keep_first noted_close react
close_transports closing [] first s = (first, s)
close_transports closing ((name, t) ∷ rest) first s =
    let (o, s') = noted_close name (react name (closing name) s) in
    close_transports closing rest (keep_first first o) s'

unfoldable pub close_journal : Session → Session
close_journal s = record s { journal_closed = true }

-- A whole `close` with no other thread in between: the error that it raises at the end, if any.
unfoldable pub close : (String → Bool) → (String → Reaction) → Session → Option Error × Session
unfolding close_flag close_clear close_readers close_transports close_journal
close stopped closing s =
    let (first, s') = close_readers stopped s.readers none (close_clear (close_flag s)) in
    let (first', s'') = close_transports closing s.transports first s' in
    (first', close_journal s'')
