-- ===== src/Tasks/PlantSection.antt =====
-- The plant section in `load_task` of src/ironbench/tasks.py.
use ironharness.Prelude.{
  Bool, true, false, not, ◌&&◌, Option, none, some, List, [], ◌∷◌, Bytes, String,
}
use ironharness.Prelude.Integer.{ℤ}
use ironharness.Prelude.Text.{codes}
use ironharness.Tasks.{Check, demand, demand_type, when, first, all, each, among, is_empty}
use ironharness.Tasks.Values.{
  Yaml, str, list, end, Number, whole, real, Python, Map, has, get_or, get_null, is_dict, is_list,
  map_of, items_of, int_of, number_of, number,
}
use ironharness.Tasks.Stimulus.{known_keys}

-- PLANT_KEYS
abbrev pub plant_keys : List String
plant_keys =
    "model" ∷ "K" ∷ "T" ∷ "ambient" ∷ "y0" ∷ "dt" ∷ "duration" ∷ "u_min" ∷ "u_max" ∷ "noise_std"
    ∷ "seed" ∷ "setpoint" ∷ "requirements" ∷ "disturbances" ∷ []

abbrev pub some_int : Option ℤ → Bool
some_int none = false
some_int (some n) = true

module _ {F : Type 0} (py : Python F) where
  -- No float that is infinite or no number.
  abbrev pub finite : Number F → Bool
  finite (whole n) = true
  finite (real x) = py.is_finite x

  -- A test of a number that is no bool.
  abbrev pub on_number : (Number F → Bool) → Option (Number F) → Bool
  on_number test none = false
  on_number test (some x) = test x

  -- The value of a key of the section.
  unfoldable pub check_value : Bytes × Yaml F → Check
  check_value (key, v) =
      when (not (among ("model" ∷ "requirements" ∷ "disturbances" ∷ []) key))
        (cond_seed (among ("seed" ∷ []) key))
    where
      cond_seed : Bool → Check
      cond_seed true = demand (some_int (int_of v))
      cond_seed false = demand (on_number finite (number_of v))

  -- The number of a key that has been checked.
  abbrev pub num : Number F → Option (Number F) → Number F
  num default none = default
  num default (some x) = x

  abbrev pub number_at : String → Number F → Map F → Number F
  number_at key default m = num default (number_of (get_null key m))

  abbrev pub as_float : Number F → Number F
  as_float x = real (py.to_float x)

  unfoldable pub check_times : Map F → Check
  check_times m =
      let dt = as_float (number_at "dt" (real py.half) m) in
      let duration = as_float (number_at "duration" (number 0) m) in
      first (
        demand (not (py.at_most dt (number 0)) && not (py.below duration dt))
        ∷ demand (not (py.below dt (real py.hundredth)))
        ∷ demand (
            not (
              py.below (number 20000) (
                real (
                  py.div (py.to_float (number_at "duration" (number 0) m))
                    (py.to_float (number_at "dt" (real py.half) m))))))
        ∷ [])

  unfoldable pub check_bounds : Map F → Check
  check_bounds m = first (
      demand (
        not (
          py.at_most (as_float (number_at "u_max" (number 1) m))
            (as_float (number_at "u_min" (number 0) m))))
      ∷ demand (not (py.below (as_float (number_at "noise_std" (number 0) m)) (number 0)))
      ∷ [])

  unfoldable pub check_requirement : Bytes × Yaml F → Check
  check_requirement (key, v) = first (
      demand (on_number (λ x. not (py.at_most x (number 0))) (number_of v))
      ∷ demand (on_number finite (number_of v))
      ∷ [])

  unfoldable pub check_requirements : Yaml F → Check
  check_requirements v = first (
      demand (is_dict v && not (is_empty (map_of v)))
      ∷ demand (known_keys ("steady_error" ∷ "overshoot" ∷ "settle_time" ∷ []) (map_of v))
      ∷ each check_requirement (map_of v)
      ∷ [])

  unfoldable pub check_disturbance : Map F → Check
  check_disturbance d = first (
      demand (known_keys ("at" ∷ "ambient" ∷ []) d)
      ∷ demand (has "at" d && has "ambient" d)
      ∷ demand (on_number (λ x. not (py.below x (number 0))) (number_of (get_null "at" d)))
      ∷ demand (on_number (λ x. true) (number_of (get_null "ambient" d)))
      ∷ demand (
          on_number finite (number_of (get_null "at" d))
          && on_number finite (number_of (get_null "ambient" d)))
      ∷ [])

  unfoldable pub check_disturbances : Yaml F → Check
  check_disturbances v = first (
      demand_type (is_list v)
      ∷ demand_type (all (λ d. is_dict d) (items_of v))
      ∷ each (λ d. check_disturbance (map_of d)) (items_of v)
      ∷ [])

  -- The section of a task for the plant.
  unfoldable pub check_plant : Yaml F → Check
  check_plant v =
      let m = map_of v in
      first (
        demand_type (is_dict v)
        ∷ demand (not (is_empty m))
        ∷ demand (known_keys plant_keys m)
        ∷ demand (among ("heater" ∷ "rc" ∷ "motor" ∷ []) (model m))
        ∷ demand (has "K" m && (has "T" m && (has "duration" m && has "setpoint" m)))
        ∷ each check_value m
        ∷ demand (not (py.at_most (number_at "K" (number 0) m) (number 0)))
        ∷ demand (not (py.at_most (number_at "T" (number 0) m) (number 0)))
        ∷ check_times m
        ∷ check_bounds m
        ∷ check_requirements (get_null "requirements" m)
        ∷ check_disturbances (get_or "disturbances" (list end) m)
        ∷ [])
    where
      shown : Yaml F → Bytes
      shown (str text) = text
      shown v' = py.show v'

      model : Map F → Bytes
      model m = shown (get_or "model" (str (codes "heater")) m)
