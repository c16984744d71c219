-- ===== src/Tasks/Values.antt =====
-- What yaml.safe_load gives, and what src/ironbench/tasks.py reads of it.
--
-- A mapping is an association list whose keys are texts and differ. The floats and what Python does
-- with them are parameters, a record `Python`.
use ironharness.Prelude.{
  ℕ, zero, suc, Bool, true, false, not, ◌&&◌, Option, none, some, List, [], ◌∷◌, Bytes, String,
  if◌then◌else◌,
}
use ironharness.Prelude.Integer.{ℤ, pos, negsuc}
use ironharness.Prelude.Search.{same_bytes}
use ironharness.Prelude.Text.{codes, strip}

mutual
  pub data Yaml (F : Type 0) : Type 0 where
    null : Yaml F
    bool : Bool → Yaml F
    int : ℤ → Yaml F
    float : F → Yaml F
    str : Bytes → Yaml F
    list : Items F → Yaml F
    dict : Entries F → Yaml F

  pub data Items (F : Type 0) : Type 0 where
    end : Items F
    item : Yaml F → Items F → Items F

  pub data Entries (F : Type 0) : Type 0 where
    last : Entries F
    entry : Bytes → Yaml F → Entries F → Entries F

-- What isinstance(v, (int, float)) holds of, where True is 1.
pub data Number (F : Type 0) : Type 0 where
  whole : ℤ → Number F
  real : F → Number F

-- int(v) of a float
pub data Truncated : Type 0 where
  to_int : ℤ → Truncated
  from_nan from_infinity : Truncated

pub record Python (F : Type 0) : Type 0 where
  pub at_most : Number F → Number F → Bool
  pub below : Number F → Number F → Bool
  pub is_finite : F → Bool
  pub to_float : Number F → F
  pub div : F → F → F
  pub half : F
  pub hundredth : F
  pub trunc : F → Truncated
  pub parse_int : Bytes → Option ℤ
  pub show : Yaml F → Bytes
  pub compiles : Bytes → Bool

abbrev pub Map : Type 0 → Type 0
Map F = List (Bytes × Yaml F)

module _ {F : Type 0} where
  unfoldable pub items : Items F → List (Yaml F)
  items end = []
  items (item v vs) = v ∷ items vs

  unfoldable pub entries : Entries F → Map F
  entries last = []
  entries (entry k v es) = (k, v) ∷ entries es

  unfoldable pub find_key : Bytes → Map F → Option (Yaml F)
  find_key key [] = none
  find_key key ((k, v) ∷ m) = let rest = find_key key m in if same_bytes k key then some v else rest

  abbrev pub get : String → Map F → Option (Yaml F)
  get key m = find_key (codes key) m

  abbrev pub present : Option (Yaml F) → Bool
  present none = false
  present (some v) = true

  abbrev pub has : String → Map F → Bool
  has key m = present (get key m)

  abbrev pub or_value : Yaml F → Option (Yaml F) → Yaml F
  or_value default none = default
  or_value default (some v) = v

  -- m.get(key, default)
  abbrev pub get_or : String → Yaml F → Map F → Yaml F
  get_or key default m = or_value default (get key m)

  abbrev pub get_null : String → Map F → Yaml F
  get_null key m = get_or key null m

  -- bool(v), with what a float is
  unfoldable pub truthy : Python F → Yaml F → Bool
  truthy py null = false
  truthy py (bool b) = b
  truthy py (int (pos zero)) = false
  truthy py (int (pos (suc n))) = true
  truthy py (int (negsuc n)) = true
  truthy py (float x) =
      not (py.at_most (real x) (whole (pos 0)) && py.at_most (whole (pos 0)) (real x))
  truthy py (str []) = false
  truthy py (str (c ∷ cs)) = true
  truthy py (list end) = false
  truthy py (list (item v vs)) = true
  truthy py (dict last) = false
  truthy py (dict (entry k v es)) = true

  abbrev pub is_dict : Yaml F → Bool
  is_dict (dict es) = true
  is_dict _ = false

  abbrev pub is_list : Yaml F → Bool
  is_list (list vs) = true
  is_list _ = false

  abbrev pub is_bool : Yaml F → Bool
  is_bool (bool b) = true
  is_bool _ = false

  abbrev pub is_str : Yaml F → Bool
  is_str (str text) = true
  is_str _ = false

  abbrev pub is_null : Yaml F → Bool
  is_null null = true
  is_null _ = false

  abbrev pub text_of : Yaml F → Bytes
  text_of (str text) = text
  text_of _ = []

  abbrev pub items_of : Yaml F → List (Yaml F)
  items_of (list vs) = items vs
  items_of _ = []

  abbrev pub map_of : Yaml F → Map F
  map_of (dict es) = entries es
  map_of _ = []

  -- An int that is no bool.
  abbrev pub int_of : Yaml F → Option ℤ
  int_of (int n) = some n
  int_of _ = none

  -- A number that is no bool.
  abbrev pub number_of : Yaml F → Option (Number F)
  number_of (int n) = some (whole n)
  number_of (float x) = some (real x)
  number_of _ = none

  -- What an order comparison with a number takes.
  abbrev pub comparable : Yaml F → Option (Number F)
  comparable (bool true) = some (whole (pos 1))
  comparable (bool false) = some (whole (pos 0))
  comparable (int n) = some (whole n)
  comparable (float x) = some (real x)
  comparable _ = none

  -- A string that is not empty, and one that is not blank.
  abbrev pub is_text : Yaml F → Bool
  is_text (str (c ∷ cs)) = true
  is_text _ = false

  unfoldable pub not_blank : Yaml F → Bool
  not_blank (str text) = not (same_bytes (strip text) [])
  not_blank _ = false

abbrev pub number : {F : Type 0} → ℕ → Number F
number n = whole (pos n)
