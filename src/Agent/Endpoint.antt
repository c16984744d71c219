-- ===== src/Agent/Endpoint.antt =====
-- `validate_endpoint` of src/ironbench/agent.py: which addresses a model may have.
--
-- What stands outside is a parameter: the host of a URL (urlsplit(...).hostname), the addresses of a
-- host (getaddrinfo; none where it does not resolve) and what `ipaddress` says of an address.
use ironharness.Prelude.{
  ◌≡◌, refl, sym, ap, ◌∙◌, if_true, if_false, subst, some_inj, ◌↔◌, inl, inr, Bool-cases, Bool,
  true, false, not, ◌&&◌, ◌||◌, Option, none, some, List, [], ◌∷◌, Bytes, ◌==◌, if◌then◌else◌,
  if_ind,
}
use ironharness.Prelude.Search.{starts_with, same_bytes}
use ironharness.Prelude.Text.{codes}
use ironharness.Agent.Config.{ascii_lower}

-- `metadata` says that it is 169.254.169.254.
pub record Address : Type 0 where
  pub metadata : Bool
  pub is_link_local : Bool
  pub is_multicast : Bool
  pub is_private : Bool
  pub is_loopback : Bool
  pub is_unspecified : Bool

pub data Refusal : Type 0 where
  bad_scheme no_host metadata_host unresolved : Refusal
  blocked private : Address → Refusal

-- host.rstrip(".")
unfoldable pub rstrip_dots : Bytes → Bytes
rstrip_dots [] = []
rstrip_dots (c ∷ text) =
    let rest = rstrip_dots text in
    elim rest [ [] ↦ if c == 46 then [] else c ∷ [] | d ∷ more ↦ c ∷ d ∷ more ]

abbrev pub is_blocked : Address → Bool
is_blocked ip = ip.metadata || ip.is_link_local || ip.is_multicast

abbrev pub is_local : Address → Bool
is_local ip = ip.is_private || ip.is_loopback || ip.is_unspecified

-- The loop over the addresses.
unfoldable pub check_addresses : Bool → List Address → Option Refusal
check_addresses allow_local [] = none
check_addresses allow_local (ip ∷ ips) =
    let rest = check_addresses allow_local ips in
    if is_blocked ip
    then some (blocked ip)
    else if not allow_local && is_local ip
    then some (private ip)
    else rest

abbrev pub or_empty : Option Bytes → Bytes
or_empty none = []
or_empty (some text) = text

abbrev pub is_metadata : Bytes → Bool
is_metadata host =
    same_bytes (ascii_lower host) (codes "metadata.google.internal")
    || same_bytes (ascii_lower host) (codes "metadata")

abbrev pub is_http : Bytes → Bool
is_http url = starts_with (codes "http://") url || starts_with (codes "https://") url

unfoldable pub resolved : Bool → Option (List Address) → Option Refusal
resolved allow_local none = some unresolved
resolved allow_local (some ips) = check_addresses allow_local ips

unfoldable pub check_name : Bool → (Bytes → Option (List Address)) → Bytes → Option Refusal
check_name allow_local getaddrinfo [] = some no_host
check_name allow_local getaddrinfo (c ∷ cs) =
    if is_metadata (c ∷ cs) then some metadata_host else resolved allow_local (getaddrinfo (c ∷ cs))

module _ (hostname : Bytes → Option Bytes) (getaddrinfo : Bytes → Option (List Address)) where
  -- None where the endpoint is accepted, the ValueError otherwise.
  unfoldable pub validate_endpoint : Bytes → Bool → Option Refusal
  validate_endpoint url allow_local =
      if not (is_http url)
      then some bad_scheme
      else check_name allow_local getaddrinfo (rstrip_dots (or_empty (hostname url)))

-- An address that may be spoken to.
abbrev pub Open : Bool → Address → Type 0
Open allow_local ip = (is_blocked ip ≡ false) × (not allow_local && is_local ip ≡ false)

abbrev pub AllOpen : Bool → List Address → Type 0
AllOpen allow_local [] = Unit {0}
AllOpen allow_local (ip ∷ ips) = Open allow_local ip × AllOpen allow_local ips

check_addresses_iff :
    (allow_local : Bool) (ips : List Address)
    → (check_addresses allow_local ips ≡ none) ↔ AllOpen allow_local ips
unfolding check_addresses
check_addresses_iff allow_local [] = (λ _. tt, λ _. refl)
check_addresses_iff allow_local (ip ∷ ips) =
    let (to, back) = check_addresses_iff allow_local ips in
    if_ind P (is_blocked ip) (λ e. (λ e'. cc, λ open'. cc (e, open'.0.0)))
      λ e.
        if_ind P (not allow_local && is_local ip) (λ e'. (λ e''. cc, λ open'. cc (e', open'.0.1)))
          (λ e'. (λ none'. ((e, e'), to none'), λ open'. back open'.1))
  where
    P : Option Refusal → Type 0
    P o = (o ≡ none) ↔ AllOpen allow_local (ip ∷ ips)

-- What an accepted endpoint satisfies.
abbrev pub Accepted :
    (Bytes → Option Bytes) → (Bytes → Option (List Address)) → Bytes → Bool → Type 0
Accepted hostname getaddrinfo url allow_local =
    let host = rstrip_dots (or_empty (hostname url)) in
    (is_http url ≡ true)
    × ((host ≡ [] → ⊥)
        × ((is_metadata host ≡ false)
            × ((ips : List Address) × ((getaddrinfo host ≡ some ips) × AllOpen allow_local ips))))

resolved_iff :
    (allow_local : Bool) (o : Option (List Address))
    → (resolved allow_local o ≡ none)
      ↔ ((ips : List Address) × ((o ≡ some ips) × AllOpen allow_local ips))
unfolding resolved
resolved_iff allow_local none = (λ e. cc e, λ open'. cc open'.1.0)
resolved_iff allow_local (some ips) =
    let (to, back) = check_addresses_iff allow_local ips in
    (
      λ e. (ips, (refl, to e)),
      λ open'. back (
          subst (λ (x : List Address). AllOpen allow_local x) (sym (some_inj open'.1.0)) open'.1.1),
    )

check_name_iff :
    (allow_local : Bool) (getaddrinfo : Bytes → Option (List Address)) (host : Bytes)
    → (check_name allow_local getaddrinfo host ≡ none) ↔ (
        (host ≡ [] → ⊥)
        × ((is_metadata host ≡ false)
            × ((ips : List Address) × ((getaddrinfo host ≡ some ips) × AllOpen allow_local ips))))
unfolding check_name
check_name_iff allow_local getaddrinfo [] = (λ e. cc e, λ ok. absurd (ok.0 refl))
check_name_iff allow_local getaddrinfo (c ∷ cs) =
    let (to, back) = resolved_iff allow_local (getaddrinfo (c ∷ cs)) in
    if_ind P (is_metadata (c ∷ cs)) (λ e. (λ e'. cc e', λ ok. cc (e, ok.1.0)))
      (λ e. (λ none'. (λ e'. cc e', (e, to none')), λ ok. back ok.1.1))
  where
    P : Option Refusal → Type 0
    P o = (o ≡ none) ↔ (
        (c ∷ cs ≡ [] → ⊥)
        × ((is_metadata (c ∷ cs) ≡ false)
            × ((ips : List Address) × ((getaddrinfo (c ∷ cs) ≡ some ips)
                  × AllOpen allow_local ips))))

-- Whatever the resolver answers, an endpoint is accepted exactly if its scheme is http or https, its
-- host is neither empty nor the name of a metadata service, and the host resolves to addresses of
-- which none is a metadata, link-local or multicast address and, without allow_local, none is
-- private, loopback or unspecified.
pub validate_endpoint_iff :
    (hostname : Bytes → Option Bytes) (getaddrinfo : Bytes → Option (List Address)) (url : Bytes)
    (allow_local : Bool)
    → (validate_endpoint hostname getaddrinfo url allow_local ≡ none)
      ↔ Accepted hostname getaddrinfo url allow_local
unfolding validate_endpoint
validate_endpoint_iff hostname getaddrinfo url allow_local =
    let (to, back) =
      check_name_iff allow_local getaddrinfo (rstrip_dots (or_empty (hostname url))) in
    elim (Bool-cases (is_http url)) [
      | inl e ↦ (
        λ none'. (e, to (sym (if_false _ _ (ap not e)) ∙ none')),
        λ ok. if_false _ _ (ap not e) ∙ back ok.1,
      )
      | inr e ↦ (λ none'. cc (if_true (some bad_scheme) _ (ap not e), none'), λ ok. cc (e, ok.0))
    ]
