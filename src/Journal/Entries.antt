-- ===== src/Journal/Entries.antt =====
-- The entry of an event: what the payload can set, and what it cannot.
use ironharness.Prelude.{
  ℕ, ◌≡◌, refl, ◌∙◌, false, Option, none, some, [], ◌∷◌, String, if◌then◌else◌, if_false, if_ind,
  Bool-cases, inl, inr, arith,
}
use ironharness.Prelude.Dict.{Dict, lookup, insert, lookup-insert}
use text.Mathlib.TextEquality.{eq_iff}
use ironharness.Journal.{Json, Event, reserved, payload, update, service, entry}

-- No key stands twice, as in a dictionary of the source.
abbrev pub Unique : {V : Type 0} → Dict V → Type 0
Unique [] = Unit {0}
Unique ((k, v) ∷ d) = (lookup k d ≡ none) × Unique d

abbrev pub or_else : {V : Type 0} → Option V → Option V → Option V
or_else none o = o
or_else (some v) o = some v

or_else-none : {V : Type 0} (o : Option V) → or_else o none ≡ o
or_else-none none = refl
or_else-none (some v) = refl

module _ (json : Json) where
  lookup-payload :
      (k : String) (items : Event json)
      → lookup k (payload json items) ≡ (if reserved k then none else lookup k items)
  unfolding payload lookup
  lookup-payload k [] =
      if_ind (λ (o : Option json.Value). none ≡ o) (reserved k) (λ _. refl) (λ _. refl)
  lookup-payload k ((j, v) ∷ items) = ground (arith, eq_iff j k, lookup-payload k items)

  pub lookup-update :
      (k : String) (rec items : Event json)
      → Unique items
      → lookup k (update json rec items) ≡ or_else (lookup k items) (lookup k rec)
  unfolding update lookup
  lookup-update k rec [] u = refl
  lookup-update k rec ((j, v) ∷ items) (fresh, u) =
      ground (arith, eq_iff j k, lookup-update k (insert j v rec) items u, lookup-insert j k v rec)

  Unique-payload : (items : Event json) → Unique items → Unique (payload json items)
  unfolding payload
  Unique-payload [] u = tt
  Unique-payload ((j, v) ∷ items) (fresh, u) =
      let ih = Unique-payload items u in
      if_ind (λ (d : Event json). Unique d) (reserved j) (λ _. ih)
        (λ r. (lookup-payload j items ∙ if_false _ _ r ∙ fresh, ih))

  service-reserved :
      (k : String) (ts : json.Value) (seq : ℕ) (actor kind : String)
      → reserved k ≡ false
      → lookup k (service json ts seq actor kind) ≡ none
  unfolding service lookup reserved
  service-reserved k ts seq actor kind r = ground (
    arith,
    eq_iff k "ts",
    eq_iff "ts" k,
    eq_iff k "seq",
    eq_iff "seq" k,
    eq_iff k "actor",
    eq_iff "actor" k,
    eq_iff k "kind",
    eq_iff "kind" k,
  )

  -- Whatever a payload holds, the keys ts, seq, actor and kind of its entry are those that the
  -- journal sets, and every other key has the value of the payload.
  pub lookup-entry :
      (k : String) (ts : json.Value) (seq : ℕ) (actor kind : String) (items : Event json)
      → Unique items
      → lookup k (entry json ts seq actor kind items)
        ≡ (if reserved k then lookup k (service json ts seq actor kind) else lookup k items)
  unfolding entry
  lookup-entry k ts seq actor kind items u =
      lookup-update k (service json ts seq actor kind) (payload json items) (Unique-payload items u)
      ∙ split
    where
      split :
          or_else (lookup k (payload json items)) (lookup k (service json ts seq actor kind))
          ≡ (if reserved k then lookup k (service json ts seq actor kind) else lookup k items)
      split = elim (Bool-cases (reserved k)) [
        | inl r ↦ rw (lookup-payload k items, r)
        | inr r ↦
            rw (lookup-payload k items, service-reserved k ts seq actor kind r, r)
              (or_else-none (lookup k items))
      ]
