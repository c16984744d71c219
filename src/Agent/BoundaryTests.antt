-- ===== src/Agent/BoundaryTests.antt =====
-- Runs of validate_endpoint and the config of src/ironbench/agent.py.
use ironharness.Prelude.Search.{starts_with, same_bytes}
use ironharness.Prelude.{ℕ, ◌≡◌, refl, ◌↔◌, true, false, Option, none, some, [], ◌∷◌, Bytes}
use ironharness.Prelude.Text.{codes}
use ironharness.Agent.Endpoint.{
  Address, private, validate_endpoint, Accepted, validate_endpoint_iff, check_addresses, check_name,
  resolved, rstrip_dots,
}
use ironharness.Prelude.{leb, if◌then◌else◌}
use ironharness.Prelude.Integer.{ℤ, pos}
use ironharness.Agent.Config.{IsWithin, resolve_llm_config, resolve_llm_config-IsWithin}

abbrev at_home : Address
at_home = record {
  metadata = false;
  is_link_local = false;
  is_multicast = false;
  is_private = true;
  is_loopback = false;
  is_unspecified = false;
}

abbrev to_host : Bytes → Option Bytes
to_host url = some (codes "lab.lan.")

at_home_blocked :
    validate_endpoint to_host (λ _. some (at_home ∷ [])) (codes "http://lab.lan./v1") false
    ≡ some (private at_home)
unfolding validate_endpoint starts_with check_name rstrip_dots same_bytes resolved check_addresses
at_home_blocked = refl

validate_endpoint_iff_example :
    (validate_endpoint to_host (λ _. some (at_home ∷ [])) (codes "http://lab.lan./v1") true ≡ none)
    ↔ Accepted to_host (λ _. some (at_home ∷ [])) (codes "http://lab.lan./v1") true
validate_endpoint_iff_example =
    validate_endpoint_iff to_host (λ _. some (at_home ∷ [])) (codes "http://lab.lan./v1") true

-- The texts that are numbers in this example.
abbrev small_int : Bytes → Option ℤ
small_int text =
    if same_bytes text (codes "5")
    then some (pos 5)
    else if same_bytes text (codes "600")
    then some (pos 600)
    else if same_bytes text (codes "8192")
    then some (pos 8192)
    else none

resolve_llm_config-IsWithin_example :
    IsWithin {F = ℕ}
      (λ t. leb t 20)
      (resolve_llm_config (λ t. leb t 20) small_int 7 (λ _. none) (λ _. none) none none none)
resolve_llm_config-IsWithin_example =
    resolve_llm_config-IsWithin (λ t. leb t 20) small_int 7 (λ _. none) (λ _. none) none none none
