-- ===== src/Session/Exclusion.antt =====
-- While one operation owns the line of a connection, no other one gets it.
use ironharness.Prelude.{◌≡◌, ◌≢◌, refl, Bool, true, ◌||◌, String, if_ind}
use ironharness.Prelude.Dict.{has}
use ironharness.Session.{Session, Outcome, raised, Error, refuse}
use ironharness.Session.Line.{
  LineOp, write, read, read_line, put, get, monitor, reader_start, gate, no_reader, no_transfer,
  no_monitor,
}
use ironharness.Session.Rules.{
  found_serial_rule, found_rule, no_reader_rule, no_transfer_rule, no_monitor_rule, has_base_rule,
  bounded_rule,
}

-- A transfer or a monitor has the name.
abbrev pub busy : String → Session → Bool
busy name s = has name s.transfers || has name s.monitors

-- The call raised.
pub data Raised : Outcome × Session → Type 0 where
  by : (e : Error) (s : Session) → Raised (raised e, s)

module _ (name : String) (s : Session) (taken : busy name s ≡ true) where
  no : (kind_name : String) (e : Error) → Raised (refuse kind_name name e s)
  unfolding refuse
  no kind_name e = if_ind Raised s.journal_closed (λ _. by _ _) (λ _. by _ _)

  line_taken :
      (first second : String) (next : Session → Outcome × Session)
      → Raised (no_transfer first name (no_monitor second name next) s)
  line_taken first second next =
      no_transfer_rule Raised name s no first _
        λ x. no_monitor_rule Raised name s no second _ λ m. cc (taken, x, m)

  -- While a transfer or a monitor runs on a connection, every write, read, line read, put, get,
  -- monitor and reader start on it raises, whatever its arguments.
  pub gate-Raised : (op : LineOp) → Raised (gate op name s)
  unfolding gate
  gate-Raised write = found_serial_rule Raised name s no _ _ λ _ _. line_taken _ _ _
  gate-Raised (read size) =
      bounded_rule Raised name s no _ size _ _ _
        (no_reader_rule Raised name s no _ _ _ λ _. line_taken _ _ _)
  gate-Raised (read_line size) =
      bounded_rule Raised name s no _ size _ _ _
        (no_reader_rule Raised name s no _ _ _ λ _. line_taken _ _ _)
  gate-Raised put =
      no_reader_rule Raised name s no _ _ _
        λ _. found_rule Raised name s no _ _ λ _. line_taken _ _ _
  gate-Raised get =
      no_reader_rule Raised name s no _ _ _
        λ _. found_rule Raised name s no _ _ λ _. line_taken _ _ _
  gate-Raised monitor = no_reader_rule Raised name s no _ _ _ λ _. line_taken _ _ _
  gate-Raised (reader_start size) = bounded_rule Raised name s no _ size _ _ _ (
      has_base_rule Raised name s no _
        λ _. no_reader_rule Raised name s no _ _ _ λ _. line_taken _ _ _)

-- While a background reader has a connection, everything but a write raises on it.
module _ (name : String) (s : Session) (attached : has name s.readers ≡ true) where
  refusal : (kind_name : String) (e : Error) → Raised (refuse kind_name name e s)
  refusal =
      unfold refuse in λ kind_name e. if_ind Raised s.journal_closed (λ _. by _ _) (λ _. by _ _)

  read_side :
      (first : String) (e : Error) (next : Session → Outcome × Session)
      → Raised (no_reader first name e next s)
  read_side first e next = no_reader_rule Raised name s refusal first e _ λ r. cc (attached, r)

  pub gate_with_reader-Raised : (op : LineOp) → op ≢ write → Raised (gate op name s)
  unfolding gate
  gate_with_reader-Raised write other = absurd (other refl)
  gate_with_reader-Raised (read size) other =
      bounded_rule Raised name s refusal _ size _ _ _ (read_side _ _ _)
  gate_with_reader-Raised (read_line size) other =
      bounded_rule Raised name s refusal _ size _ _ _ (read_side _ _ _)
  gate_with_reader-Raised put other = read_side _ _ _
  gate_with_reader-Raised get other = read_side _ _ _
  gate_with_reader-Raised monitor other = read_side _ _ _
  gate_with_reader-Raised (reader_start size) other =
      bounded_rule Raised name s refusal _ size _ _ _
        (has_base_rule Raised name s refusal _ λ _. read_side _ _ _)
