-- ===== src/Policy/Tests.antt =====
-- Runs of the access policy on texts of ASCII.
use ironharness.Prelude.{
  ℕ, ◌-◌, ◌≡◌, ◌↔◌, ◌⊎◌, refl, true, ◌&&◌, Option, none, some, [], ◌∷◌, Bytes, leb, map, ◌+◌,
  if◌then◌else◌,
}
use ironharness.Prelude.Text.{codes, strip, lstrip, rstrip, space, split_by}
use ironharness.Prelude.Search.{find, starts_with, same_bytes}
use ironharness.Policy.{
  AccessPolicy, deny, by_host, by_kind, check_host, check_kind, parse_allowed_hosts,
  parse_enabled_kinds, parse_max_connections, host_parts, host_part, host_port, with_port, number,
  digits, gather, count, limit_of, unsigned, grouped, kind_parts, kind_part, among, all_kinds,
}
use ironharness.Policy.Hosts.{Listed, Refused, Silent, check_host_iff}
use ironharness.Policy.Kinds.{Enabling, parse_enabled_kinds-Enabling}

abbrev lower : Bytes → Bytes
lower text = map (λ c. if leb 65 c && leb c 90 then c + 32 else c) text

abbrev ascii_digit : ℕ → Option ℕ
ascii_digit c = if leb 48 c && leb c 57 then some (c - 48) else none

hosts :
    parse_allowed_hosts lower ascii_digit (some (codes "Broker.lan:1883, plc,,"))
    ≡ some ((codes "broker.lan", some 1883) ∷ (codes "plc", none) ∷ [])
unfolding parse_allowed_hosts host_parts host_part host_port with_port number digits gather count
    strip lstrip rstrip space split_by find starts_with
hosts = refl

six : parse_allowed_hosts lower ascii_digit (some (codes "::1")) ≡ none
unfolding parse_allowed_hosts host_parts host_part host_port with_port number digits gather count
    strip lstrip rstrip space split_by find starts_with
six = refl

limits : parse_max_connections lower ascii_digit (some (codes " +1_0 ")) ≡ some (some 10)
unfolding parse_max_connections limit_of unsigned grouped strip lstrip rstrip space
limits = refl

below_zero : parse_max_connections lower ascii_digit (some (codes "-3")) ≡ none
unfolding parse_max_connections limit_of unsigned grouped strip lstrip rstrip space
below_zero = refl

typo : parse_enabled_kinds lower ascii_digit (some (codes "serial,mqqt")) ≡ none
unfolding parse_enabled_kinds kind_parts kind_part among all_kinds gather strip lstrip rstrip space
    split_by same_bytes
typo = refl

disabled :
    check_kind lower ascii_digit
      (record { allowed_hosts = []; enabled_kinds = codes "file" ∷ [] })
      true
      (codes "esp")
    ≡ deny true (by_kind (codes "esp"))
unfolding check_kind among same_bytes
disabled = refl

abbrev lab : AccessPolicy
lab = record { allowed_hosts = (codes "plc", some 502) ∷ []; enabled_kinds = codes "modbus" ∷ [] }

check_host_iff_example :
    (Silent (check_host lower ascii_digit lab true (codes "PLC") 80)
      ↔ ((lab.allowed_hosts ≡ []) ⊎ Listed lab.allowed_hosts (lower (codes "PLC")) 80))
    × (Silent (check_host lower ascii_digit lab true (codes "PLC") 80)
        ⊎ Refused true
            (by_host (codes "PLC") 80)
            (check_host lower ascii_digit lab true (codes "PLC") 80))
check_host_iff_example = check_host_iff lower ascii_digit lab true (codes "PLC") 80

parse_enabled_kinds-Enabling_example :
    Enabling (parse_enabled_kinds lower ascii_digit (some (codes " , Serial ")))
parse_enabled_kinds-Enabling_example =
    parse_enabled_kinds-Enabling lower ascii_digit (some (codes " , Serial "))
