-- ===== src/Tasks/Stimulus.antt =====
-- The steps of the stimulus in `load_task` of src/ironbench/tasks.py.
use ironharness.Prelude.{
  suc, Bool, true, false, not, ◌&&◌, ◌||◌, Option, none, some, List, [], ◌∷◌, Bytes, String,
}
use ironharness.Prelude.Integer.{ℤ, pos}
use ironharness.Tasks.{Check, demand, first, all, any, among}
use ironharness.Tasks.Values.{
  Yaml, bool, int, float, str, Number, Python, Map, get, has, get_or, get_null, truthy, is_dict,
  is_bool, is_str, is_text, not_blank, map_of, int_of, number_of, comparable, number,
}

-- STIMULUS_STEP_KEYS
abbrev pub step_keys : List String
step_keys =
    "write-serial" ∷ "wait-serial" ∷ "delay" ∷ "set-control" ∷ "mqtt-publish" ∷ "mqtt-collect" ∷ []

-- An int of at least 1.
abbrev pub positive : Option ℤ → Bool
positive (some (pos (suc n))) = true
positive _ = false

module _ {F : Type 0} where
  -- No key but these.
  unfoldable pub known_keys : List String → Map F → Bool
  known_keys words m = all (λ (kv : Bytes × Yaml F). among words kv.0) m

  -- A check of the value of a key, where the step has it.
  abbrev pub on_value : (Yaml F → Check) → Option (Yaml F) → Check
  on_value check none = none
  on_value check (some v) = check v

  abbrev pub on_key : String → Map F → (Yaml F → Check) → Check
  on_key key m check = on_value check (get key m)

  -- v in (0, 1)
  unfoldable pub zero_or_one : Python F → Yaml F → Bool
  zero_or_one py v = elim (comparable v) [
    | none ↦ false
    | some x ↦ same x (number 0) || same x (number 1)
  ]
    where
      same : Number F → Number F → Bool
      same x y = py.at_most x y && py.at_most y x

  unfoldable pub check_publish : Python F → Yaml F → Check
  check_publish py v =
      let pub' = map_of v in
      first (
        demand (is_dict v && (truthy py (get_null "topic" pub') && has "payload" pub'))
        ∷ demand (not_blank (get_null "topic" pub'))
        ∷ demand (is_str (get_null "payload" pub'))
        ∷ demand (known_keys ("topic" ∷ "payload" ∷ "retain" ∷ "qos" ∷ []) pub')
        ∷ demand (
            is_bool (get_or "retain" (bool false) pub')
            && zero_or_one py (get_or "qos" (int (pos 0)) pub'))
        ∷ [])

  -- 0 < v <= 600
  abbrev pub in_timeout : Python F → Option (Number F) → Bool
  in_timeout py none = false
  in_timeout py (some x) = py.below (number 0) x && py.at_most x (number 600)

  unfoldable pub check_collect : Python F → Yaml F → Check
  check_collect py v =
      let col = map_of v in
      first (
        demand (is_dict v && (truthy py (get_null "topic" col) && has "count" col))
        ∷ demand (not_blank (get_null "topic" col))
        ∷ demand (known_keys ("topic" ∷ "count" ∷ "timeout_sec" ∷ []) col)
        ∷ demand (positive (int_of (get_null "count" col)))
        ∷ demand (in_timeout py (number_of (get_or "timeout_sec" (int (pos 10)) col)))
        ∷ [])

  -- isinstance(v, (str, int, float, bool))
  abbrev pub is_scalar : Yaml F → Bool
  is_scalar (str text) = true
  is_scalar (int n) = true
  is_scalar (float x) = true
  is_scalar (bool b) = true
  is_scalar _ = false

  unfoldable pub check_control : Yaml F → Check
  check_control v =
      let ctrl = map_of v in
      demand (
        is_dict v
        && (not_blank (get_null "part-id" ctrl)
            && (not_blank (get_null "control" ctrl) && is_scalar (get_null "value" ctrl))))

  unfoldable pub check_step : Python F → Map F → Check
  check_step py step = first (
      demand (known_keys step_keys step)
      ∷ on_key "write-serial" step (λ v. demand (is_text v))
      ∷ on_key "mqtt-publish" step (check_publish py)
      ∷ on_key "mqtt-collect" step (check_collect py)
      ∷ on_key "wait-serial" step (λ v. demand (not_blank v))
      ∷ on_key "set-control" step check_control
      ∷ [])

  abbrev pub some_step : String → List (Map F) → Bool
  some_step key steps = any (λ step. has key step) steps

  abbrev pub is_trigger : Map F → Bool
  is_trigger step = has "write-serial" step || has "mqtt-publish" step

  -- A wait-serial before the first trigger.
  unfoldable pub unanchored : Bool → List (Map F) → Bool
  unanchored seen [] = false
  unanchored seen (step ∷ steps) =
      let seen' = seen || is_trigger step in
      let rest = unanchored seen' steps in (has "wait-serial" step && not seen') || rest

  -- An mqtt-publish or an mqtt-collect.
  abbrev pub mqtt_step : List (Map F) → Bool
  mqtt_step steps = any (λ step. has "mqtt-publish" step || has "mqtt-collect" step) steps
