-- ===== src/Tasks/Sections.antt =====
-- The other sections in `load_task` of src/ironbench/tasks.py.
use ironharness.Prelude.{
  ℕ, Bool, true, false, not, ◌&&◌, ◌||◌, Option, none, some, List, [], ◌∷◌, Bytes, String, map, leb,
  if◌then◌else◌,
}
use ironharness.Prelude.Integer.{ℤ, pos}
use ironharness.Prelude.Search.{same_bytes}
use ironharness.Tasks.{
  Check, value_error, type_error, demand, demand_type, when, first, all, any, each, among, is_empty,
  is_target,
}
use ironharness.Tasks.Values.{
  Yaml, null, list, dict, end, Number, Python, Map, get, has, get_or, get_null, truthy, is_dict,
  is_list, is_null, is_str, is_text, map_of, items_of, int_of, number_of, comparable, text_of,
  number,
}
use ironharness.Tasks.Stimulus.{known_keys, positive, check_step, mqtt_step}

-- 1 <= n <= high
abbrev pub in_range : ℕ → Option ℤ → Bool
in_range high (some (pos n)) = leb 1 n && leb n high
in_range high _ = false

abbrev pub member : Bytes → List Bytes → Bool
member text texts = any (λ other. same_bytes other text) texts

-- len(set(texts)) == len(texts)
unfoldable pub distinct : List Bytes → Bool
distinct [] = true
distinct (text ∷ texts) = let rest = distinct texts in not (member text texts) && rest

abbrev pub has_renode : {F : Type 0} → Map F → Bool
has_renode m = has "platform" m && has "firmware" m

module _ {F : Type 0} (py : Python F) where
  -- v or []
  abbrev pub or_nil : Yaml F → Yaml F
  or_nil v = if truthy py v then v else list end

  abbrev pub strings : Yaml F → List Bytes
  strings v = map (λ x. text_of x) (items_of v)

  -- A list of which every item passes a test.
  abbrev pub list_of : (Yaml F → Bool) → Yaml F → Bool
  list_of test v = is_list v && all test (items_of v)

  unfoldable pub check_stimulus : Yaml F → Check
  check_stimulus v =
      first (
        demand (list_of (λ x. is_dict x) v)
        ∷ each (λ x. check_step py (map_of x)) (items_of v)
        ∷ [])

  abbrev pub steps_of : Yaml F → List (Map F)
  steps_of v = map (λ x. map_of x) (items_of v)

  abbrev pub maybe_text : String → Map F → Bool
  maybe_text key m = elim (get key m) [ none ↦ true | some v ↦ is_text v ]

  unfoldable pub check_renode : Bytes → Yaml F → Check
  check_renode target v =
      let m = map_of v in
      first (
        demand_type (is_dict v)
        ∷ demand (known_keys ("platform" ∷ "firmware" ∷ "uart" ∷ []) m)
        ∷ when (is_target "renode" target) (demand (has_renode m))
        ∷ when (is_target "renode" target)
            (demand (maybe_text "platform" m && (maybe_text "firmware" m && maybe_text "uart" m)))
        ∷ [])

  -- An action that a noisy line may have; what has no hash raises a TypeError.
  unfoldable pub check_action : Yaml F → Check
  check_action (list vs) = some type_error
  check_action (dict es) = some type_error
  check_action v = demand (is_str v && among ("drop" ∷ "corrupt" ∷ "delay" ∷ []) (text_of v))

  abbrev pub holds : (Number F → Bool) → Option (Number F) → Bool
  holds test none = false
  holds test (some x) = test x

  -- not v < low
  abbrev pub at_least : ℕ → Yaml F → Bool
  at_least low v = holds (λ x. not (py.below x (number low))) (comparable v)

  abbrev pub in_unit : Yaml F → Bool
  in_unit v = holds (λ x. py.at_most (number 0) x && py.at_most x (number 1)) (comparable v)

  -- A test of a value, which the default passes.
  abbrev pub given : (Yaml F → Bool) → Option (Yaml F) → Bool
  given test none = true
  given test (some v) = test v

  -- Fault(**f), whose TypeError and ValueError are both told as a ValueError
  unfoldable pub check_fault : Map F → Check
  check_fault f = first (
      demand
        (known_keys ("action" ∷ "after_ops" ∷ "count" ∷ "probability" ∷ "ratio" ∷ "seconds" ∷ []) f)
      ∷ demand (given in_unit (get "probability" f))
      ∷ demand (given in_unit (get "ratio" f))
      ∷ demand (given (at_least 0) (get "seconds" f))
      ∷ demand (given (at_least 0) (get "after_ops" f))
      ∷ demand (is_null (get_null "count" f) || at_least 1 (get_null "count" f))
      ∷ [])

  unfoldable pub check_noise : Bytes → Yaml F → Check
  check_noise target v =
      let m = map_of v in
      let faults = get_or "faults" (list end) m in
      first (
        demand_type (is_dict v)
        ∷ demand (known_keys ("seed" ∷ "faults" ∷ []) m)
        ∷ when (has "seed" m) (demand (is_some (int_of (get_null "seed" m))))
        ∷ demand (list_of (λ x. is_dict x) faults)
        ∷ each (λ x. check_action (get_null "action" (map_of x))) (items_of faults)
        ∷ each (λ x. check_fault (map_of x)) (items_of faults)
        ∷ demand (is_empty m || is_target "unix" target)
        ∷ [])
    where
      is_some : Option ℤ → Bool
      is_some none = false
      is_some (some n) = true

  unfoldable pub check_mqtt : Bytes → List (Map F) → Yaml F → Check
  check_mqtt target stimulus v = first (
      demand (not (truthy py v) || is_target "unix" target)
      ∷ when (mqtt_step stimulus) (demand (is_target "unix" target))
      ∷ when (mqtt_step stimulus) (demand (is_dict v && truthy py v))
      ∷ when (truthy py v) (demand_type (is_dict v))
      ∷ when (truthy py v) (demand (known_keys ("client_id" ∷ []) (map_of v)))
      ∷ [])

  -- [lo, hi] with 0 < lo < hi
  unfoldable pub check_period : Yaml F → Check
  check_period null = none
  check_period v = in_order (items_of v)
    where
      ordered : Option (Number F) → Option (Number F) → Bool
      ordered (some lo) (some hi) = py.below (number 0) lo && py.below lo hi
      ordered _ _ = false

      in_order : List (Yaml F) → Check
      in_order (lo ∷ hi ∷ []) = demand (ordered (number_of lo) (number_of hi))
      in_order _ = some value_error

  unfoldable pub check_event : Map F → Check
  check_event e = first (
      demand (known_keys ("pattern" ∷ "count_min" ∷ "period_ms" ∷ []) e)
      ∷ demand (is_text (get_null "pattern" e))
      ∷ demand (positive (int_of (get_null "count_min" e)))
      ∷ check_period (get_null "period_ms" e)
      ∷ [])

  unfoldable pub check_events : Bytes → Yaml F → Check
  check_events target v = first (
      demand (not (truthy py v) || is_target "unix" target)
      ∷ demand (list_of (λ x. is_dict x) v)
      ∷ each (λ x. check_event (map_of x)) (items_of v)
      ∷ [])

  unfoldable pub check_tags : Yaml F → Check
  check_tags v = first (
      demand (list_of (λ x. is_str x) v)
      ∷ demand (distinct (strings v))
      ∷ demand (
          all (among ("io" ∷ "data" ∷ "protocol" ∷ "fsm" ∷ "control" ∷ "resilience" ∷ "debug" ∷ []))
            (strings v))
      ∷ [])
