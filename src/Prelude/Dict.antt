-- ===== src/Prelude/Dict.antt =====
-- Python's `dict` with string keys: entries in the order of insertion, an assignment to a key that
-- is there keeps its place.
use ironharness.Prelude.Tests.{if◌then◌else◌, if_true, if_false}
use Prim.Native.String.{String}
use mathlib.Core.Path.{◌≡◌, refl, ◌∙◌}
use mathlib.Core.Bool.{Bool, true, false}
use mathlib.Core.Option.{Option, none, some}
use mathlib.Core.List.{List, [], ◌∷◌}
use native.Mathlib.Omega.{arith}
use text.Mathlib.Text.{◌==◌ as str_eq}
use text.Mathlib.TextEquality.{eq_iff}
use text.Mathlib.TextPositions.{eq_refl}

-- k == j on strings
abbrev pub same : String → String → Bool
same a b = str_eq a b

pub same_iff : (a b : String) → (same a b ≡ true → a ≡ b) × (a ≡ b → same a b ≡ true)
same_iff a b = ((eq_iff a b).0, (eq_iff a b).1)

pub same_refl : (a : String) → same a a ≡ true
same_refl a = eq_refl a

abbrev pub Dict {ℓ} : Type ℓ → Type ℓ
Dict V = List (String × V)

module _ {ℓ} {V : Type ℓ} where
  -- d.get(k)
  unfoldable pub lookup : String → Dict V → Option V
  lookup k [] = none
  lookup k ((j, v) ∷ d) = if same j k then some v else lookup k d

  abbrev pub present : Option V → Bool
  present none = false
  present (some v) = true

  -- k in d
  abbrev pub has : String → Dict V → Bool
  has k d = present (lookup k d)

  -- d[k] = v
  unfoldable pub insert : String → V → Dict V → Dict V
  insert k v [] = (k, v) ∷ []
  insert k v ((j, w) ∷ d) =
      let rest = insert k v d in if same j k then (j, v) ∷ d else (j, w) ∷ rest

  -- d.pop(k, None), and `del d[k]` for a key that is there
  unfoldable pub remove : String → Dict V → Dict V
  remove k [] = []
  remove k ((j, w) ∷ d) = let rest = remove k d in if same j k then rest else (j, w) ∷ rest

  pub lookup-insert :
      (k j : String) (v : V) (d : Dict V)
      → lookup j (insert k v d) ≡ (if same k j then some v else lookup j d)
  unfolding lookup insert
  lookup-insert k j v [] = refl
  lookup-insert k j v ((i, w) ∷ d) =
      ground (arith, eq_iff k j, eq_iff i k, eq_iff i j, lookup-insert k j v d)

  pub lookup-remove :
      (k j : String) (d : Dict V) → lookup j (remove k d) ≡ (if same k j then none else lookup j d)
  unfolding lookup remove
  lookup-remove k j [] = ground arith
  lookup-remove k j ((i, w) ∷ d) =
      ground (arith, eq_iff k j, eq_iff i k, eq_iff i j, lookup-remove k j d)

module _ {ℓ} {V : Type ℓ} (k : String) (d : Dict V) where
  pub lookup-insert_self : (v : V) → lookup k (insert k v d) ≡ some v
  lookup-insert_self v = lookup-insert k k v d ∙ if_true (some v) (lookup k d) (same_refl k)

  pub lookup-insert_ne :
      (j : String) (v : V) → same k j ≡ false → lookup j (insert k v d) ≡ lookup j d
  lookup-insert_ne j v e = lookup-insert k j v d ∙ if_false (some v) (lookup j d) e

  pub lookup-remove_self : lookup k (remove k d) ≡ none
  lookup-remove_self = lookup-remove k k d ∙ if_true none (lookup k d) (same_refl k)

  pub lookup-remove_ne : (j : String) → same k j ≡ false → lookup j (remove k d) ≡ lookup j d
  lookup-remove_ne j e = lookup-remove k j d ∙ if_false none (lookup j d) e
