-- ===== src/Policy.antt =====
-- src/io_core/policy.py: which hosts and kinds an operation may reach, read from the environment.
--
-- `casefold` and the decimal value of a character are parameters, as they stand in Unicode's tables.
-- A parse that raises the ValueError gives none. The set of kinds is a list.
pub mod Hosts
pub mod Kinds
mod Tests
use ironharness.Prelude.{
  ℕ, zero, suc, ◌+◌, ◌-◌, ◌*◌, Bool, true, false, not, ◌&&◌, ◌||◌, Option, none, some, List, [],
  ◌∷◌, ◌++◌, Bytes, length, take, drop, ltb, leb, ◌==◌, if◌then◌else◌,
}
use ironharness.Prelude.Search.{find, same_bytes}
use ironharness.Prelude.Text.{codes, strip, split_by}

-- A host and a port; none is any port.
abbrev pub Entry : Type 0
Entry = Bytes × Option ℕ

abbrev pub is_nil : Bytes → Bool
is_nil [] = true
is_nil (c ∷ cs) = false

-- text.count(":")
unfoldable pub count : ℕ → Bytes → ℕ
count c [] = 0
count c (d ∷ text) = let more = count c text in if c == d then suc more else more

unfoldable pub all_kinds : List Bytes
all_kinds = codes "serial" ∷ codes "modbus" ∷ codes "mqtt" ∷ codes "esp" ∷ codes "file" ∷ []

unfoldable pub among : Bytes → List Bytes → Bool
among text [] = false
among text (other ∷ others) = same_bytes text other || among text others

-- What one part of a list in a variable stands for.
pub data Part (A : Type 0) : Type 0 where
  blank : Part A
  item : A → Part A
  bad : Part A

-- The parts in order, up to the first that is bad.
unfoldable pub gather : {A : Type 0} → Part A → Option (List A) → Option (List A)
gather blank rest = rest
gather bad rest = none
gather (item a) none = none
gather (item a) (some more) = some (a ∷ more)

abbrev pub known_kind : Bool → Bytes → Part Bytes
known_kind true kind = item kind
known_kind false kind = bad

unfoldable pub kind_part : Bytes → Part Bytes
kind_part kind = if is_nil kind then blank else known_kind (among kind all_kinds) kind

abbrev pub or_all : Option (List Bytes) → Option (List Bytes)
or_all none = none
or_all (some []) = some all_kinds
or_all (some (kind ∷ kinds)) = some (kind ∷ kinds)

pub record AccessPolicy : Type 0 where
  pub allowed_hosts : List Entry
  pub enabled_kinds : List Bytes

-- The details of a "policy_violation" event.
pub data Violation : Type 0 where
  by_host : Bytes → ℕ → Violation
  by_kind : Bytes → Violation

-- What a check emits through on_event, and whether it raises PolicyViolation.
pub record Checked : Type 0 where
  pub events : List Violation
  pub denied : Bool

abbrev pub passed : Checked
passed = record { events = []; denied = false }

-- `_deny`; without an on_event hook nothing is emitted.
unfoldable pub deny : Bool → Violation → Checked
deny true v = record { events = v ∷ []; denied = true }
deny false v = record { events = []; denied = true }

abbrev pub restricted : List Entry → Bool
restricted [] = false
restricted (e ∷ entries) = true

unfoldable pub port_fits : Option ℕ → ℕ → Bool
port_fits none port = true
port_fits (some p) port = p == port

module _ (casefold : Bytes → Bytes) (digit : ℕ → Option ℕ) where
  -- `isdigit` and `int` on a port: digits only.
  abbrev pub next_digit : Option ℕ → Option ℕ → Option ℕ
  next_digit (some n) (some d) = some (n * 10 + d)
  next_digit _ _ = none

  unfoldable pub digits : Option ℕ → Bytes → Option ℕ
  digits n [] = n
  digits n (c ∷ cs) = digits (next_digit n (digit c)) cs

  unfoldable pub number : Bytes → Option ℕ
  number [] = none
  number (c ∷ cs) = digits (some 0) (c ∷ cs)

  -- `int` behind the sign: single underscores may stand between digits.
  unfoldable pub grouped : Option ℕ → Bytes → Option ℕ
  grouped n [] = n
  grouped n (c ∷ []) = next_digit n (digit c)
  grouped n (c ∷ d ∷ cs) =
      let after_gap = grouped (next_digit n (digit d)) cs in
      let after_digit = grouped (next_digit n (digit c)) (d ∷ cs) in
      if c == 95 then after_gap else after_digit

  unfoldable pub unsigned : Bytes → Option ℕ
  unsigned [] = none
  unsigned (c ∷ cs) = grouped (next_digit (some 0) (digit c)) cs

  -- What becomes of `int(raw)`: a negative number is an error too, but for -0.
  abbrev pub unless_negative : Option ℕ → Option (Option ℕ)
  unless_negative (some zero) = some (some 0)
  unless_negative _ = none

  abbrev pub as_limit : Option ℕ → Option (Option ℕ)
  as_limit none = none
  as_limit (some n) = some (some n)

  unfoldable pub limit_of : Bytes → Option (Option ℕ)
  limit_of [] = some none
  limit_of (c ∷ cs) =
      if c == 45
      then unless_negative (unsigned cs)
      else if c == 43
      then as_limit (unsigned cs)
      else as_limit (unsigned (c ∷ cs))

  unfoldable pub parse_max_connections : Option Bytes → Option (Option ℕ)
  parse_max_connections none = some none
  parse_max_connections (some raw) = limit_of (strip raw)

  -- An entry with a colon at `at`.
  unfoldable pub with_port : Bytes → Option ℕ → Part Entry
  with_port host none = bad
  with_port host (some port) = item (casefold (strip host), some port)

  unfoldable pub host_port : Bytes → Option ℕ → Part Entry
  host_port part none = item (casefold part, none)
  host_port part (some at) = with_port (take at part) (number (drop (at + 1) part))

  unfoldable pub host_part : Bytes → Part Entry
  host_part part =
      if is_nil part
      then blank
      else if ltb 1 (count 58 part)
      then bad
      else host_port part (find (58 ∷ []) part)

  unfoldable pub host_parts : List Bytes → Option (List Entry)
  host_parts [] = some []
  host_parts (part ∷ parts) = gather (host_part (strip part)) (host_parts parts)

  unfoldable pub parse_allowed_hosts : Option Bytes → Option (List Entry)
  parse_allowed_hosts none = host_parts (split_by 44 [])
  parse_allowed_hosts (some raw) = host_parts (split_by 44 raw)

  unfoldable pub kind_parts : List Bytes → Option (List Bytes)
  kind_parts [] = some []
  kind_parts (part ∷ parts) = gather (kind_part (casefold (strip part))) (kind_parts parts)

  unfoldable pub parse_enabled_kinds : Option Bytes → Option (List Bytes)
  parse_enabled_kinds none = some all_kinds
  parse_enabled_kinds (some raw) =
      if is_nil (strip raw) then some all_kinds else or_all (kind_parts (split_by 44 raw))

  unfoldable pub allows : List Entry → Bytes → ℕ → Bool
  allows [] host port = false
  allows ((h, p) ∷ entries) host port =
      same_bytes h (casefold host) && port_fits p port || allows entries host port

  abbrev pub policy_of : Option (List Entry) → Option (List Bytes) → Option AccessPolicy
  policy_of (some hosts) (some kinds) =
      some (record { allowed_hosts = hosts; enabled_kinds = kinds })
  policy_of _ _ = none

  unfoldable pub from_env : Option Bytes → Option Bytes → Option AccessPolicy
  from_env hosts kinds = policy_of (parse_allowed_hosts hosts) (parse_enabled_kinds kinds)

  unfoldable pub check_host : AccessPolicy → Bool → Bytes → ℕ → Checked
  check_host policy hook host port =
      if not (restricted policy.allowed_hosts) || allows policy.allowed_hosts host port
      then passed
      else deny hook (by_host host port)

  unfoldable pub check_kind : AccessPolicy → Bool → Bytes → Checked
  check_kind policy hook kind =
      if among kind policy.enabled_kinds then passed else deny hook (by_kind kind)
