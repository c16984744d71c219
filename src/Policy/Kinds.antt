-- ===== src/Policy/Kinds.antt =====
-- What IRONHARNESS_ENABLED_KINDS enables: a text that is accepted never disables every kind, and
-- never enables one that does not exist.
use ironharness.Prelude.{
  ℕ, ◌≡◌, ◌≢◌, refl, sym, subst, true, Option, none, some, List, [], ◌∷◌, Bytes, if_ind, Bool-cases,
  inl, inr,
}
use ironharness.Prelude.Search.{same_bytes}
use ironharness.Prelude.Text.{strip, split_by}
use ironharness.Policy.{
  is_nil, all_kinds, among, Part, item, bad, blank, gather, known_kind, or_all, kind_part,
  kind_parts, parse_enabled_kinds,
}

abbrev pub Known : List Bytes → Type 0
Known [] = Unit {0}
Known (kind ∷ kinds) = (among kind all_kinds ≡ true) × Known kinds

-- A parse that raises, or kinds that all exist.
abbrev Gathered : Option (List Bytes) → Type 0
Gathered none = Unit {0}
Gathered (some kinds) = Known kinds

abbrev KnownPart : Part Bytes → Type 0
KnownPart (item kind) = among kind all_kinds ≡ true
KnownPart _ = Unit {0}

kind_part-KnownPart : (kind : Bytes) → KnownPart (kind_part kind)
unfolding kind_part
kind_part-KnownPart kind =
    if_ind KnownPart (is_nil kind) (λ _. tt)
      λ _. elim (Bool-cases (among kind all_kinds)) [
        | inl e ↦ subst (λ b. KnownPart (known_kind b kind)) (sym e) e
        | inr e ↦ subst (λ b. KnownPart (known_kind b kind)) (sym e) tt
      ]

gather-Gathered :
    (part : Part Bytes) (rest : Option (List Bytes))
    → KnownPart part
    → Gathered rest
    → Gathered (gather part rest)
unfolding gather
gather-Gathered blank rest k g = g
gather-Gathered bad rest k g = tt
gather-Gathered (item kind) none k g = tt
gather-Gathered (item kind) (some kinds) k g = (k, g)

all_kinds-Known : Known all_kinds
unfolding all_kinds among same_bytes
all_kinds-Known = (refl, (refl, (refl, (refl, (refl, tt)))))

-- Some kinds, which all exist; or the parse raises.
abbrev pub Enabling : Option (List Bytes) → Type 0
Enabling none = Unit {0}
Enabling (some kinds) = (kinds ≢ []) × Known kinds

or_all-Enabling : (kinds : Option (List Bytes)) → Gathered kinds → Enabling (or_all kinds)
unfolding all_kinds
or_all-Enabling none g = tt
or_all-Enabling (some []) g = (λ e. cc e, all_kinds-Known)
or_all-Enabling (some (kind ∷ kinds)) g = (λ e. cc e, g)

module _ (casefold : Bytes → Bytes) (digit : ℕ → Option ℕ) where
  kind_parts-Gathered : (parts : List Bytes) → Gathered (kind_parts casefold digit parts)
  unfolding kind_parts
  kind_parts-Gathered [] = tt
  kind_parts-Gathered (part ∷ parts) =
      gather-Gathered (kind_part (casefold (strip part))) _
        (kind_part-KnownPart (casefold (strip part))) (kind_parts-Gathered parts)

  -- Whatever stands in the variable, parse_enabled_kinds raises or gives at least one kind, and only
  -- kinds that exist.
  pub parse_enabled_kinds-Enabling :
      (raw : Option Bytes) → Enabling (parse_enabled_kinds casefold digit raw)
  unfolding parse_enabled_kinds
  parse_enabled_kinds-Enabling none = or_all-Enabling (some []) tt
  parse_enabled_kinds-Enabling (some raw) =
      if_ind Enabling (is_nil (strip raw)) (λ _. or_all-Enabling (some []) tt)
        λ _. or_all-Enabling _ (kind_parts-Gathered (split_by 44 raw))
