-- ===== src/Session/Admitted.antt =====
-- The gates let the calls through that they are meant to let through.
use ironharness.Prelude.{
  ℕ, ◌≡◌, ap, ◌∙◌, true, false, ◌&&◌, String, if_true, if_false, leb, ◌≤◌, arith,
}
use ironharness.Prelude.Dict.{has}
use ironharness.Session.{Session, serial, Outcome, passed, Error, runtime_error, note, is_kind}
use ironharness.Session.Line.{
  LineOp, write, read, read_line, put, get, monitor, reader_start, gate, found_serial, found,
  no_reader, no_transfer, no_monitor, go, begin_transfer, begin_monitor, attach_reader, has_base,
  bounded,
}

-- The arguments are within their bounds.
abbrev pub Fits : LineOp → Type 0
Fits (read size) = (1 ≤ size) × (size ≤ 1048576)
Fits (read_line size) = (1 ≤ size) × (size ≤ 1048576)
Fits (reader_start size) = (512 ≤ size) × (size ≤ 16777216)
Fits _ = Unit {0}

-- An open serial connection that no reader, transfer or monitor owns, in a session whose journal
-- is open.
pub record Idle (name : String) (s : Session) : Type 0 where
  pub connected : has name s.transports ≡ true
  pub is_serial : is_kind serial name s ≡ true
  pub raw : has name s.serial_base ≡ true
  pub unread : has name s.readers ≡ false
  pub untransferred : has name s.transfers ≡ false
  pub unmonitored : has name s.monitors ≡ false
  pub logging : s.journal_closed ≡ false

module _ (name : String) (s : Session) (idle : Idle name s) where
  past_kind :
      (k : String) (next : Session → Outcome × Session) → found_serial k name next s ≡ next s
  unfolding found_serial
  past_kind k next = if_true _ _ idle.connected ∙ if_true _ _ idle.is_serial

  past_found : (k : String) (next : Session → Outcome × Session) → found k name next s ≡ next s
  unfolding found
  past_found k next = if_true _ _ idle.connected

  past_base : (next : Session → Outcome × Session) → has_base name next s ≡ next s
  unfolding has_base
  past_base next = if_true _ _ idle.raw

  past_reader :
      (k : String) (e : Error) (next : Session → Outcome × Session)
      → no_reader k name e next s ≡ next s
  unfolding no_reader
  past_reader k e next = if_false _ _ idle.unread

  past_owners :
      (first second : String) (next : Session → Outcome × Session)
      → no_transfer first name (no_monitor second name next) s ≡ next s
  unfolding no_transfer no_monitor
  past_owners first second next = if_false _ _ idle.untransferred ∙ if_false _ _ idle.unmonitored

  both : {low size high : ℕ} → low ≤ size → size ≤ high → leb low size && leb size high ≡ true
  both l h = ground arith

  past_bounds :
      (low size high : ℕ) (k : String) (next : Session → Outcome × Session)
      → low ≤ size
      → size ≤ high
      → bounded low size high k name next s ≡ next s
  unfolding bounded
  past_bounds low size high k next l h = if_true _ _ (both l h)

  past_read :
      (size : ℕ) (first second : String)
      → 1 ≤ size
      → size ≤ 1048576
      → bounded 1 size 1048576 first name
          (no_reader first name runtime_error
            (no_transfer first name (no_monitor first name (found_serial second name go))))
          s
        ≡ go s
  past_read size first second l h =
      past_bounds 1 size 1048576 first _ l h
      ∙ past_reader first runtime_error _
      ∙ past_owners first first _
      ∙ past_kind second go

  past_transfer :
      (first second third : String)
      → no_reader first name runtime_error
          (found second name
            (no_transfer "transfer_refused" name (no_monitor third name (begin_transfer name))))
          s
        ≡ begin_transfer name s
  past_transfer first second third =
      past_reader first runtime_error _ ∙ past_found second _ ∙ past_owners _ third _

  noted : (attach_reader name s).0 ≡ passed
  unfolding attach_reader note
  noted = ap (λ (p : Outcome × Session). p.0) (if_false _ _ idle.logging)

  -- On an open serial connection that no reader, transfer or monitor owns, with the journal open,
  -- every line operation whose size argument is within its bounds passes its gate.
  pub gate-Admitted : (op : LineOp) → Fits op → (gate op name s).0 ≡ passed
  unfolding gate go begin_transfer begin_monitor
  gate-Admitted write fits = ap (λ (p : Outcome × Session). p.0) (past_kind _ _ ∙ past_owners _ _ _)
  gate-Admitted (read size) (l, h) = ap (λ (p : Outcome × Session). p.0) (past_read size _ _ l h)
  gate-Admitted (read_line size) (l, h) =
      ap (λ (p : Outcome × Session). p.0) (past_read size _ _ l h)
  gate-Admitted put fits = ap (λ (p : Outcome × Session). p.0) (past_transfer _ _ _)
  gate-Admitted get fits = ap (λ (p : Outcome × Session). p.0) (past_transfer _ _ _)
  gate-Admitted monitor fits =
      ap (λ (p : Outcome × Session). p.0) (past_reader _ _ _ ∙ past_owners _ _ _ ∙ past_found _ _)
  gate-Admitted (reader_start size) (l, h) =
      ap (λ (p : Outcome × Session). p.0)
        (past_bounds _ size _ _ _ l h ∙ past_base _ ∙ past_reader _ _ _ ∙ past_owners _ _ _)
      ∙ noted
