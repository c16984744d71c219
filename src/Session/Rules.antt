-- ===== src/Session/Rules.antt =====
-- One rule for each guard of the gates: a property of what a gate gives holds if it holds of every
-- refusal, and of the rest of the gate under the guard's test.
use ironharness.Prelude.{ℕ, ◌≡◌, true, false, ◌&&◌, String, if_ind, leb}
use ironharness.Prelude.Dict.{has}
use ironharness.Session.{Session, Outcome, Error, refuse, is_kind, serial}
use ironharness.Session.Line.{
  found_serial, found, no_reader, no_transfer, no_monitor, has_base, bounded,
}

module _ (P : Outcome × Session → Type 0) (name : String) (s : Session)
    (no : (kind_name : String) (e : Error) → P (refuse kind_name name e s)) where
  pub found_rule :
      (kind_name : String) (next : Session → Outcome × Session)
      → (has name s.transports ≡ true → P (next s))
      → P (found kind_name name next s)
  unfolding found
  found_rule kind_name next k = if_ind P (has name s.transports) k (λ _. no _ _)

  pub no_reader_rule :
      (kind_name : String) (e : Error) (next : Session → Outcome × Session)
      → (has name s.readers ≡ false → P (next s))
      → P (no_reader kind_name name e next s)
  unfolding no_reader
  no_reader_rule kind_name e next k = if_ind P (has name s.readers) (λ _. no _ _) k

  pub no_transfer_rule :
      (kind_name : String) (next : Session → Outcome × Session)
      → (has name s.transfers ≡ false → P (next s))
      → P (no_transfer kind_name name next s)
  unfolding no_transfer
  no_transfer_rule kind_name next k = if_ind P (has name s.transfers) (λ _. no _ _) k

  pub no_monitor_rule :
      (kind_name : String) (next : Session → Outcome × Session)
      → (has name s.monitors ≡ false → P (next s))
      → P (no_monitor kind_name name next s)
  unfolding no_monitor
  no_monitor_rule kind_name next k = if_ind P (has name s.monitors) (λ _. no _ _) k

  pub has_base_rule :
      (next : Session → Outcome × Session)
      → (has name s.serial_base ≡ true → P (next s))
      → P (has_base name next s)
  unfolding has_base
  has_base_rule next k = if_ind P (has name s.serial_base) k (λ _. no _ _)

  pub bounded_rule :
      (low size high : ℕ) (kind_name : String) (next : Session → Outcome × Session)
      → P (next s)
      → P (bounded low size high kind_name name next s)
  unfolding bounded
  bounded_rule low size high kind_name next k =
      if_ind P (leb low size && leb size high) (λ _. k) (λ _. no _ _)

  pub found_serial_rule :
      (kind_name : String) (next : Session → Outcome × Session)
      → (has name s.transports ≡ true → is_kind serial name s ≡ true → P (next s))
      → P (found_serial kind_name name next s)
  unfolding found_serial
  found_serial_rule kind_name next k =
      if_ind P (has name s.transports) (λ t. if_ind P (is_kind serial name s) (k t) (λ _. no _ _))
        (λ _. no _ _)
