-- ===== src/Session.antt =====
-- src/io_core/session.py: the registries of a session and the gates before every operation.
--
-- A block that the source runs under the session lock is one function on `Session`, so a run of
-- several threads is a sequence of such functions (Session/Steps.antt). A transport and a reader
-- are handles here: what the gates and the registries do does not depend on them, and the outcome
-- of a call of one is an argument. The two sets `_transfers` and `_monitors` are dictionaries with
-- no values. A journal entry is its kind and its `conn`.
pub mod Line
pub mod Life
pub mod View
pub mod Registry
pub mod Rules
pub mod Closing
pub mod Steps
pub mod Exclusion
pub mod Journaled
pub mod Admitted
pub mod Race
mod Tests
use ironharness.Prelude.{
  ℕ, Bool, true, false, Option, none, some, List, [], ◌∷◌, ◌++◌, String, if◌then◌else◌,
}
use ironharness.Prelude.Dict.{Dict, lookup, has}

pub data Kind : Type 0 where
  serial modbus mqtt : Kind

pub record Entry : Type 0 where
  pub kind : String
  pub conn : String

pub record Session : Type 0 where
  pub transports : Dict ℕ
  pub kinds : Dict Kind
  pub serial_base : Dict ℕ
  pub readers : Dict ℕ
  pub transfers : Dict (Unit {0})
  pub monitors : Dict (Unit {0})
  pub closed : Bool
  pub journal : List Entry
  pub journal_closed : Bool

-- A new session has all registries empty.
unfoldable pub init : Session
init = record {
  transports = [];
  kinds = [];
  serial_base = [];
  readers = [];
  transfers = [];
  monitors = [];
  closed = false;
  journal = [];
  journal_closed = false;
}

-- What a call raises.
pub data Error : Type 0 where
  key_error runtime_error value_error policy_violation transport_closed os_error : Error

pub data Outcome : Type 0 where
  passed : Outcome
  raised : Error → Outcome

abbrev pub entry : String → String → Entry
entry kind conn = record { kind = kind; conn = conn }

-- A journaled refusal. A closed journal raises a ValueError of its own instead.
unfoldable pub refuse : String → String → Error → Session → Outcome × Session
refuse kind name error s =
    if s.journal_closed
    then (raised value_error, s)
    else (raised error, record s { journal = s.journal ++ entry kind name ∷ [] })

-- An entry after which the call goes on.
unfoldable pub note : String → String → Session → Outcome × Session
note kind name s =
    if s.journal_closed
    then (raised value_error, s)
    else (passed, record s { journal = s.journal ++ entry kind name ∷ [] })

abbrev pub same_kind : Kind → Kind → Bool
same_kind serial serial = true
same_kind modbus modbus = true
same_kind mqtt mqtt = true
same_kind _ _ = false

-- self._kinds.get(name) == kind
unfoldable pub is_kind : Kind → String → Session → Bool
is_kind kind name s = elim (lookup name s.kinds) [ none ↦ false | some k ↦ same_kind k kind ]

-- `_check_open`
unfoldable pub check_open : Session → Outcome
check_open s = if s.closed then raised transport_closed else passed
