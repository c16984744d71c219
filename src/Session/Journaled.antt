-- ===== src/Session/Journaled.antt =====
-- No gate refuses silently, and none refuses without cause.
use ironharness.Prelude.{
  ◌≡◌, refl, ap, ◌⊎◌, inl, inr, false, [], ◌∷◌, ◌++◌, String, if_ind, if_false,
}
use ironharness.Session.{Session, Outcome, passed, Error, entry, refuse, note}
use ironharness.Session.Line.{
  LineOp, write, read, read_line, put, get, monitor, reader_start, gate, no_transfer, no_monitor,
  go, begin_transfer, begin_monitor, attach_reader,
}
use ironharness.Session.Rules.{
  found_serial_rule, found_rule, no_reader_rule, no_transfer_rule, no_monitor_rule, has_base_rule,
  bounded_rule,
}

-- The call went through, or all that it did is one journal entry under the connection's name.
abbrev pub Accounted : String → Session → Outcome × Session → Type 0
Accounted name s p =
    (p.0 ≡ passed)
    ⊎ ((kind_name : String) × (p.1 ≡ record s { journal = s.journal ++ entry kind_name name ∷ [] }))

module _ (name : String) (s : Session) (log : s.journal_closed ≡ false) where
  abbrev Acc : Outcome × Session → Type 0
  Acc = Accounted name s

  no : (kind_name : String) (e : Error) → Acc (refuse kind_name name e s)
  unfolding refuse
  no kind_name e =
      if_ind Acc s.journal_closed (λ closed. cc (log, closed)) (λ _. inr (kind_name, refl))

  idle_line :
      (first second : String) (next : Session → Outcome × Session)
      → Acc (next s)
      → Acc (no_transfer first name (no_monitor second name next) s)
  idle_line first second next k =
      no_transfer_rule Acc name s no first _ λ _. no_monitor_rule Acc name s no second _ λ _. k

  reader_noted : (attach_reader name s).0 ≡ passed
  unfolding attach_reader note
  reader_noted = ap (λ (p : Outcome × Session). p.0) (if_false _ _ log)

  -- While the journal is open, a gate either lets the call through or changes nothing but the
  -- journal, which gets one entry with the connection's name: no refusal is silent.
  pub gate-Accounted : (op : LineOp) → Acc (gate op name s)
  unfolding gate go begin_transfer begin_monitor
  gate-Accounted write = found_serial_rule Acc name s no _ _ λ _ _. idle_line _ _ _ (inl refl)
  gate-Accounted (read size) = bounded_rule Acc name s no _ size _ _ _ (
      no_reader_rule Acc name s no _ _ _
        λ _. idle_line _ _ _ (found_serial_rule Acc name s no _ _ λ _ _. inl refl))
  gate-Accounted (read_line size) = bounded_rule Acc name s no _ size _ _ _ (
      no_reader_rule Acc name s no _ _ _
        λ _. idle_line _ _ _ (found_serial_rule Acc name s no _ _ λ _ _. inl refl))
  gate-Accounted put =
      no_reader_rule Acc name s no _ _ _
        λ _. found_rule Acc name s no _ _ λ _. idle_line _ _ _ (inl refl)
  gate-Accounted get =
      no_reader_rule Acc name s no _ _ _
        λ _. found_rule Acc name s no _ _ λ _. idle_line _ _ _ (inl refl)
  gate-Accounted monitor =
      no_reader_rule Acc name s no _ _ _
        λ _. idle_line _ _ _ (found_rule Acc name s no _ _ λ _. inl refl)
  gate-Accounted (reader_start size) = bounded_rule Acc name s no _ size _ _ _ (
      has_base_rule Acc name s no _
        λ _. no_reader_rule Acc name s no _ _ _ λ _. idle_line _ _ _ (inl reader_noted))
