-- ===== src/Policy/Hosts.antt =====
-- What a text in IRONHARNESS_ALLOWED_HOSTS allows.
use ironharness.Prelude.{
  ℕ, suc, ◌+◌, ◌≡◌, ◌↔◌, ◌⊎◌, inl, inr, refl, sym, ap, ap₂, subst, ◌∙◌, Bool, true, false, ◌&&◌,
  ◌||◌, not, Option, none, some, List, [], ◌∷◌, ◌++◌, Bytes, length, drop, ==_iff, if◌then◌else◌,
  arith, take-append_self, drop-append_self, drop-drop, some_inj,
}
use ironharness.Prelude.Search.{
  Absent, find, find-first, starts_with, same_bytes, same_bytes→eq, same_bytes_refl,
}
use ironharness.Prelude.Text.{strip, join_by, AllAbsent, split_by-join_by}
use ironharness.Policy.{
  Checked, Entry, is_nil, count, gather, Part, item, blank, AccessPolicy, passed, deny, Violation,
  by_host, restricted, port_fits, number, with_port, host_port, host_part, host_parts,
  parse_allowed_hosts, allows, check_host,
}

count-Absent : (c : ℕ) (text : Bytes) → Absent c text → count c text ≡ 0
unfolding count
count-Absent c [] a = refl
count-Absent c (d ∷ text) (differs, a) = rw differs (count-Absent c text a)

count-first :
    (c : ℕ) (text rest : Bytes) → Absent c text → count c (text ++ c ∷ rest) ≡ suc (count c rest)
unfolding count
count-first c [] rest a = ground (arith, ==_iff c c)
count-first c (d ∷ text) rest (differs, a) = rw differs (count-first c text rest a)

find-Absent : (c : ℕ) (text : Bytes) → Absent c text → find (c ∷ []) text ≡ none
unfolding find starts_with
find-Absent c [] a = refl
find-Absent c (d ∷ text) (differs, a) = rw (differs, find-Absent c text a) refl

some_text : (host port : Bytes) → is_nil (host ++ 58 ∷ port) ≡ false
some_text [] port = refl
some_text (c ∷ host) port = refl

port_text : (host port : Bytes) → drop (length host + 1) (host ++ 58 ∷ port) ≡ port
port_text host port =
    sym (drop-drop 1 (length host) (host ++ 58 ∷ port))
    ∙ ap (drop 1) (drop-append_self host (58 ∷ port))

-- An entry covers a host and a port.
abbrev pub Covers : Entry → Bytes → ℕ → Type 0
Covers (h, p) key port = (h ≡ key) × ((p ≡ none) ⊎ (p ≡ some port))

abbrev pub Listed : List Entry → Bytes → ℕ → Type 0
Listed [] key port = ⊥
Listed (e ∷ entries) key port = Covers e key port ⊎ Listed entries key port

port_fits_iff :
    (p : Option ℕ) (port : ℕ) → (port_fits p port ≡ true) ↔ ((p ≡ none) ⊎ (p ≡ some port))
unfolding port_fits
port_fits_iff none port = (λ e. inl refl, λ c. refl)
port_fits_iff (some q) port =
    (λ e. inr (ap some ((==_iff q port).0 e)), λ c. (==_iff q port).1 (asks c))
  where
    asks : (some q ≡ none) ⊎ (some q ≡ some port) → q ≡ port
    asks (inl e) = cc e
    asks (inr e) = some_inj e

same_bytes_iff : (a b : Bytes) → (same_bytes a b ≡ true) ↔ (a ≡ b)
same_bytes_iff a b =
    (same_bytes→eq a b, λ e. subst (λ (c : Bytes). same_bytes a c ≡ true) e (same_bytes_refl a))

and_iff : (a b : Bool) → ((a && b) ≡ true) ↔ ((a ≡ true) × (b ≡ true))
and_iff true b = (λ e. (refl, e), λ (_, e). e)
and_iff false b = (λ e. cc e, λ (e, _). e)

or_iff : (a b : Bool) → ((a || b) ≡ true) ↔ ((a ≡ true) ⊎ (b ≡ true))
or_iff true b = (λ e. inl refl, λ _. refl)
or_iff false b = (λ e. inr e, second)
  where
    second : (false ≡ true) ⊎ (b ≡ true) → b ≡ true
    second (inl e) = cc e
    second (inr e) = e

either : {A B C D : Type 0} → (A → C) → (B → D) → A ⊎ B → C ⊎ D
either f g (inl a) = inl (f a)
either f g (inr b) = inr (g b)

-- Nothing raised and nothing emitted.
abbrev pub Silent : Checked → Type 0
Silent c = (c.denied ≡ false) × (c.events ≡ [])

-- Raised, with the one event behind a hook and none without.
abbrev pub Refused : Bool → Violation → Checked → Type 0
Refused true v c = (c.denied ≡ true) × (c.events ≡ v ∷ [])
Refused false v c = (c.denied ≡ true) × (c.events ≡ [])

Silent-iff :
    (b hook : Bool) (v : Violation) → Silent (if b then passed else deny hook v) ↔ (b ≡ true)
unfolding deny
Silent-iff true hook v = (λ e. refl, λ e. (refl, refl))
Silent-iff false true v = (λ e. cc e.0, λ e. cc e)
Silent-iff false false v = (λ e. cc e.0, λ e. cc e)

Silent-or_refused :
    (b hook : Bool) (v : Violation)
    → Silent (if b then passed else deny hook v)
      ⊎ Refused hook v (if b then passed else deny hook v)
unfolding deny
Silent-or_refused true hook v = inl (refl, refl)
Silent-or_refused false true v = inr (refl, refl)
Silent-or_refused false false v = inr (refl, refl)

module _ (casefold : Bytes → Bytes) (digit : ℕ → Option ℕ) where
  -- How a part of the list is written, and the entries it stands for.
  pub data Says : Bytes → List Entry → Type 0 where
    nothing : {part : Bytes} → strip part ≡ [] → Says part []
    any_port :
        {part : Bytes} (c : ℕ) (host : Bytes)
        → strip part ≡ c ∷ host
        → Absent 58 (c ∷ host)
        → Says part ((casefold (c ∷ host), none) ∷ [])
    one_port :
        {part : Bytes} (host port : Bytes) (n : ℕ)
        → strip part ≡ host ++ 58 ∷ port
        → Absent 58 host
        → Absent 58 port
        → number casefold digit port ≡ some n
        → Says part ((casefold (strip host), some n) ∷ [])

  pub data AllSay : List Bytes → List Entry → Type 0 where
    done : AllSay [] []
    first :
        {part : Bytes} {parts : List Bytes} {entries more : List Entry}
        → Says part entries
        → AllSay parts more
        → AllSay (part ∷ parts) (entries ++ more)

  abbrev one : List Entry → Part Entry
  one [] = blank
  one (e ∷ entries) = item e

  colon_part :
      (host port : Bytes) (n : ℕ)
      → Absent 58 host
      → Absent 58 port
      → number casefold digit port ≡ some n
      → host_part casefold digit (host ++ 58 ∷ port) ≡ item (casefold (strip host), some n)
  unfolding host_part host_port with_port
  colon_part host port n a b e =
      rw
        (
          some_text host port,
          count-first 58 host port a,
          count-Absent 58 port b,
          find-first 58 host port a,
          take-append_self host (58 ∷ port),
          port_text host port,
          e,
        )
        refl

  host_part-Says :
      (part : Bytes) (entries : List Entry)
      → Says part entries
      → host_part casefold digit (strip part) ≡ one entries
  unfolding host_part host_port
  host_part-Says part [] (nothing e) = rw e refl
  host_part-Says part entries (any_port c host e a) =
      rw (e, count-Absent 58 (c ∷ host) a, find-Absent 58 (c ∷ host) a) refl
  host_part-Says part entries (one_port host port n e a b known) =
      ap (host_part casefold digit) e ∙ colon_part host port n a b known

  gather-one :
      (entries more : List Entry) (part : Bytes)
      → Says part entries
      → gather (one entries) (some more) ≡ some (entries ++ more)
  unfolding gather
  gather-one entries more part (nothing e) = refl
  gather-one entries more part (any_port c host e a) = refl
  gather-one entries more part (one_port host port n e a b known) = refl

  host_parts-AllSay :
      (parts : List Bytes) (entries : List Entry)
      → AllSay parts entries
      → host_parts casefold digit parts ≡ some entries
  unfolding host_parts
  host_parts-AllSay [] entries done = refl
  host_parts-AllSay (part ∷ parts) all (first {entries = es} {more} says rest) =
      ap₂ gather (host_part-Says part es says) (host_parts-AllSay parts more rest)
      ∙ gather-one es more part says

  -- A list of parts with commas between them is read as the entries that the parts stand for, in
  -- order: a blank part for none, a host for the host on any port, host:port for that port, with
  -- space around a part left out and the host case-folded.
  pub parse_allowed_hosts-AllSay :
      (part : Bytes) (parts : List Bytes) (entries : List Entry)
      → AllAbsent 44 (part ∷ parts)
      → AllSay (part ∷ parts) entries
      → parse_allowed_hosts casefold digit (some (join_by 44 part parts)) ≡ some entries
  unfolding parse_allowed_hosts
  parse_allowed_hosts-AllSay part parts entries commas says =
      ap (host_parts casefold digit) (split_by-join_by 44 part parts commas)
      ∙ host_parts-AllSay (part ∷ parts) entries says

  allows_iff :
      (entries : List Entry) (host : Bytes) (port : ℕ)
      → (allows casefold digit entries host port ≡ true) ↔ Listed entries (casefold host) port
  unfolding allows
  allows_iff [] host port = (λ e. cc e, λ l. absurd l)
  allows_iff ((h, p) ∷ entries) host port =
      let same = same_bytes_iff h (casefold host) in
      let fits = port_fits_iff p port in
      let both = and_iff (same_bytes h (casefold host)) (port_fits p port) in
      let rest = allows_iff entries host port in
      let whole =
        or_iff (same_bytes h (casefold host) && port_fits p port)
          (allows casefold digit entries host port) in
      (
        λ e. either (λ t. (same.0 (both.0 t).0, fits.0 (both.0 t).1)) rest.0 (whole.0 e),
        λ l. whole.1 (either (λ (k, f). both.1 (same.1 k, fits.1 f)) rest.1 l),
      )

  lets_pass_iff :
      (entries : List Entry) (host : Bytes) (port : ℕ)
      → ((not (restricted entries) || allows casefold digit entries host port) ≡ true)
        ↔ ((entries ≡ []) ⊎ Listed entries (casefold host) port)
  lets_pass_iff [] host port = (λ e. inl refl, λ l. refl)
  lets_pass_iff (e ∷ entries) host port =
      let (there, back) = allows_iff (e ∷ entries) host port in (λ t. inr (there t), passes back)
    where
      passes :
          (Listed (e ∷ entries) (casefold host) port
            → allows casefold digit (e ∷ entries) host port ≡ true)
          → ((e ∷ entries ≡ []) ⊎ Listed (e ∷ entries) (casefold host) port)
          → allows casefold digit (e ∷ entries) host port ≡ true
      passes back (inl nil) = cc nil
      passes back (inr l) = back l

  -- check_host neither raises nor emits exactly if no host is listed or an entry covers the host,
  -- case-folded, on its port or on any; else it raises, and behind a hook it emits exactly one event,
  -- which names this host and port, and without a hook none.
  pub check_host_iff :
      (policy : AccessPolicy) (hook : Bool) (host : Bytes) (port : ℕ)
      → (Silent (check_host casefold digit policy hook host port)
          ↔ ((policy.allowed_hosts ≡ []) ⊎ Listed policy.allowed_hosts (casefold host) port))
        × (Silent (check_host casefold digit policy hook host port)
            ⊎ Refused hook (by_host host port) (check_host casefold digit policy hook host port))
  unfolding check_host
  check_host_iff policy hook host port =
      let b =
        not (restricted policy.allowed_hosts)
        || allows casefold digit policy.allowed_hosts host port in
      let (raises, lets) = Silent-iff b hook (by_host host port) in
      let (there, back) = lets_pass_iff policy.allowed_hosts host port in
      ((λ e. there (raises e), λ l. lets (back l)), Silent-or_refused b hook (by_host host port))
