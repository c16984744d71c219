-- ===== src/Session/Race.antt =====
-- What the open methods do when `close` runs between their first test and their locked block.
use ironharness.Prelude.{
  ℕ, ◌≤◌, ◌<◌, ◌≡◌, refl, sym, ap, subst, ◌∙◌, true, false, Option, none, some, List, [], ◌∷◌,
  length, String, if_false, gt→leb,
}
use ironharness.Prelude.Dict.{has, present, lookup, lookup-insert_self}
use ironharness.Session.{Session, Outcome, Entry, Kind, serial, modbus, mqtt, passed, check_open}
use ironharness.Session.Life.{
  Reaction, outcome_of, register, react, and_then, under_limit, insert_transport, close_flag,
  close_clear, close_journal,
}
use ironharness.Session.Steps.{step, steps, registers, flags, clears, shuts}

-- The limit on the connections lets a first one pass.
abbrev pub Admits : Option ℕ → Type 0
Admits none = Unit {0}
Admits (some limit) = 1 ≤ limit

-- A transport whose open returns, with these entries.
abbrev pub opens : List String → Reaction
opens kinds = record { emits = kinds; error = none }

-- The session that `close` has emptied but whose journal it has not closed yet.
abbrev late : Session → Session
late s = close_clear (close_flag s)

inserted :
    (kind : Kind) (name : String) (t : ℕ) (s : Session)
    → has name (insert_transport kind name t s).transports ≡ true
unfolding insert_transport
inserted serial name t s = ap present (lookup-insert_self name s.transports t)
inserted modbus name t s = ap present (lookup-insert_self name s.transports t)
inserted mqtt name t s = ap present (lookup-insert_self name s.transports t)

still_closed :
    (kind : Kind) (name : String) (t : ℕ) (s : Session)
    → (insert_transport kind name t s).closed ≡ s.closed
unfolding insert_transport
still_closed serial name t s = refl
still_closed modbus name t s = refl
still_closed mqtt name t s = refl

react-opens :
    (name : String) (kinds : List String) (s : Session)
    → s.journal_closed ≡ false
    → (journal : List Entry) × (react name (opens kinds) s
        ≡ (passed, record s { journal = journal }))
unfolding react outcome_of
react-opens name [] s logging = (s.journal, refl)
react-opens name (kind ∷ kinds) s logging = (_, if_false _ _ logging)

under_limit-Admits :
    (limit : Option ℕ) (next : Session → Outcome × Session) (s : Session)
    → Admits limit
    → s.transports ≡ []
    → under_limit limit next s ≡ next s
unfolding under_limit
under_limit-Admits none next s fits empty = refl
under_limit-Admits (some limit) next s fits empty =
    if_false _ _
      (gt→leb limit (length s.transports) (subst (λ d. length d < limit) (sym empty) fits))

register-late :
    (kind : Kind) (limit : Option ℕ) (name : String) (t : ℕ) (kinds : List String) (s : Session)
    → Admits limit
    → s.journal_closed ≡ false
    → (journal : List Entry) × (register kind limit name t (opens kinds) (late s)
        ≡ (passed, insert_transport kind name t (record (late s) { journal = journal })))
unfolding register and_then close_flag close_clear lookup
register-late kind limit name t kinds s fits logging =
    let (journal, opened) = react-opens name kinds (late s) logging in
    (
      journal,
      under_limit-Admits limit _ (late s) fits refl
          ∙ ap
              (λ (p : Outcome × Session).
                and_then p (λ s'. (passed, insert_transport kind name t s')))
              opened,
    )

-- In a session that is open, an open method passes its first test. If `close` then sets the flag
-- and empties the registries before the method takes the lock, the method's block, in which the
-- transport opens with any entries of its own, still returns and registers the transport; when
-- `close` has closed the journal, the session is closed, its journal closed, and the connection
-- still registered. This is so if the limit on the connections, where there is one, is not 0.
pub late_open-stays :
    (kind : Kind) (limit : Option ℕ) (name : String) (t : ℕ) (kinds : List String) (s : Session)
    → Admits limit
    → s.closed ≡ false
    → s.journal_closed ≡ false
    → let end = steps (flags ∷ clears ∷ registers kind limit name t (opens kinds) ∷ shuts ∷ []) s in
      (check_open s ≡ passed)
      × ((register kind limit name t (opens kinds) (steps (flags ∷ clears ∷ []) s)).0 ≡ passed)
      × (end.closed ≡ true)
      × (end.journal_closed ≡ true)
      × (has name end.transports ≡ true)
unfolding steps step close_flag close_clear close_journal check_open
late_open-stays kind limit name t kinds s fits o logging =
    let (journal, e) = register-late kind limit name t kinds s fits logging in
    let at : Session = record (late s) { journal = journal } in
    (
      if_false _ _ o,
      ap (λ (p : Outcome × Session). p.0) e,
      ap (λ (p : Outcome × Session). p.1.closed) e ∙ still_closed kind name t at,
      refl,
      ap (λ (p : Outcome × Session). has name p.1.transports) e ∙ inserted kind name t at,
    )
