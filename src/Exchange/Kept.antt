-- ===== src/Exchange/Kept.antt =====
-- What the gates and the entries of serial_put, serial_get and serial_monitor do to the registries of
-- running work (src/io_core/session.py).
use ironharness.Prelude.{◌≡◌, refl, ◌⊎◌, inl, inr, String, if_ind}
use ironharness.Session.{Session, Outcome, passed, raised, Error, refuse, note}
use ironharness.Session.Line.{
  put, get, monitor, gate, no_transfer, no_monitor, begin_transfer, begin_monitor,
}
use ironharness.Session.Rules.{found_rule, no_reader_rule, no_transfer_rule, no_monitor_rule}
use ironharness.Exchange.{Answer, on, fail_as, return_as}

-- The transfers and the monitors are as they were.
abbrev pub Kept : Session → Session → Type 0
Kept s s' = (s'.transfers ≡ s.transfers) × (s'.monitors ≡ s.monitors)

refuse-Kept : (kind name : String) (e : Error) (s : Session) → Kept s (refuse kind name e s).1
unfolding refuse
refuse-Kept kind name e s =
    if_ind (λ (p : Outcome × Session). Kept s p.1) s.journal_closed (λ _. (refl, refl))
      (λ _. (refl, refl))

pub note-Kept : (kind name : String) (s : Session) → Kept s (note kind name s).1
unfolding note
note-Kept kind name s =
    if_ind (λ (p : Outcome × Session). Kept s p.1) s.journal_closed (λ _. (refl, refl))
      (λ _. (refl, refl))

pub on-Kept {ℓ} :
    {A : Type ℓ} (s : Session) (p : Outcome × Session) (next : Session → Answer A × Session)
    → Kept s p.1
    → ((s' : Session) → Kept s s' → Kept s (next s').1)
    → Kept s (on p next).1
unfolding on
on-Kept s (passed, s') next k rest = rest s' k
on-Kept s (raised e, s') next k rest = k

pub fail_as-Kept {ℓ} :
    (A : Type ℓ) (kind name : String) (e : Error) (s : Session)
    → Kept s (fail_as {A = A} kind name e s).1
unfolding fail_as
fail_as-Kept A kind name e s = on-Kept s _ _ (refuse-Kept kind name e s) (λ s' k. k)

pub return_as-Kept {ℓ} :
    {A : Type ℓ} (kind name : String) (a : A) (s : Session) → Kept s (return_as kind name a s).1
unfolding return_as
return_as-Kept kind name a s = on-Kept s _ _ (note-Kept kind name s) (λ s' k. k)

-- A gate that raises has kept them; what follows a gate that passes is the rest of the call.
unfoldable pub Gated : Session → Outcome × Session → Type 0
Gated s (o, s') = (o ≡ passed) ⊎ Kept s s'

module _ (name : String) (s : Session) where
  line-Gated :
      (first second : String) (next : Session → Outcome × Session)
      → Gated s (next s)
      → Gated s (no_transfer first name (no_monitor second name next) s)
  unfolding Gated
  line-Gated first second next k =
      no_transfer_rule (Gated s) name s (λ kind e. inr (refuse-Kept kind name e s)) first _
        λ _.
          no_monitor_rule (Gated s) name s (λ kind e. inr (refuse-Kept kind name e s)) second _
            λ _. k

  pub put-Gated : Gated s (gate put name s)
  unfolding gate begin_transfer Gated
  put-Gated =
      no_reader_rule (Gated s) name s (λ kind e. inr (refuse-Kept kind name e s)) _ _ _
        λ _.
          found_rule (Gated s) name s (λ kind e. inr (refuse-Kept kind name e s)) _ _
            λ _. line-Gated _ _ _ (inl refl)

  pub get-Gated : Gated s (gate get name s)
  unfolding gate begin_transfer Gated
  get-Gated =
      no_reader_rule (Gated s) name s (λ kind e. inr (refuse-Kept kind name e s)) _ _ _
        λ _.
          found_rule (Gated s) name s (λ kind e. inr (refuse-Kept kind name e s)) _ _
            λ _. line-Gated _ _ _ (inl refl)

  pub monitor-Gated : Gated s (gate monitor name s)
  unfolding gate begin_monitor Gated
  monitor-Gated =
      no_reader_rule (Gated s) name s (λ kind e. inr (refuse-Kept kind name e s)) _ _ _
        λ _. line-Gated _ _ _ (
          found_rule (Gated s) name s (λ kind e. inr (refuse-Kept kind name e s)) _ _ λ _. inl refl)
