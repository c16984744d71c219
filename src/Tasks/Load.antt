-- ===== src/Tasks/Load.antt =====
-- `load_task` and `load_tasks` of src/ironbench/tasks.py.
use ironharness.Prelude.{
  Bool, true, false, not, ◌&&◌, ◌||◌, Option, none, some, List, [], ◌∷◌, ◌++◌, Bytes, String, map,
  if◌then◌else◌, ◌⊎◌, inl, inr,
}
use ironharness.Prelude.Integer.{ℤ, pos}
use ironharness.Prelude.Text.{codes}
use ironharness.Tasks.{
  Task, Check, Error, value_error, type_error, crash, demand, when, first, all, among, is_empty,
  is_target, task_targets, anchored,
}
use ironharness.Tasks.Values.{
  Yaml, null, bool, int, float, str, list, dict, end, last, Python, to_int, from_nan, from_infinity,
  Map, get_or, get_null, truthy, is_dict, is_null, is_str, is_text, not_blank, map_of, items_of,
  int_of, text_of,
}
use ironharness.Tasks.Stimulus.{some_step, unanchored}
use ironharness.Tasks.PlantSection.{check_plant}
use ironharness.Tasks.Sections.{
  in_range, member, distinct, or_nil, strings, list_of, check_stimulus, steps_of, check_renode,
  check_noise, check_mqtt, check_events, check_tags,
}

module _ {F : Type 0} (py : Python F) where
  -- int(v), where a bool is 0 or 1; what is raised is a ValueError, or an OverflowError.
  unfoldable pub to_number : Yaml F → Option ℤ × Error
  to_number (bool true) = (some (pos 1), value_error)
  to_number (bool false) = (some (pos 0), value_error)
  to_number (int n) = (some n, value_error)
  to_number (float x) = elim (py.trunc x) [
    | to_int n ↦ (some n, value_error)
    | from_nan ↦ (none, value_error)
    | from_infinity ↦ (none, crash)
  ]
  to_number (str text) = (py.parse_int text, value_error)
  to_number _ = (none, value_error)

  -- str(v)
  abbrev pub shown : Yaml F → Bytes
  shown (str text) = text
  shown v = py.show v

  unfoldable pub check_timeout : Option ℤ × Error → Check
  check_timeout (none, e) = some e
  check_timeout (some n, e) = demand (in_range 600 (some n))

  abbrev pub int_or_zero : Option ℤ → ℤ
  int_or_zero none = pos 0
  int_or_zero (some n) = n

  -- `v or {}` and, of that, .get(key) or []: an AttributeError where v is no mapping.
  abbrev pub modules_of : Yaml F → Yaml F
  modules_of env = or_nil py (get_null "device_modules" (map_of env))

  unfoldable pub check_environment : Bytes → Yaml F → Check
  check_environment target env =
      when (truthy py env && among ("unix" ∷ "real" ∷ "wokwi" ∷ "renode" ∷ []) target) (
        first (
          when (not (is_dict env)) (some crash)
          ∷ demand (list_of py not_blank (modules_of env))
          ∷ demand (distinct (strings py (modules_of env)))
          ∷ []))

  -- tuple(v); a text gives its characters, a mapping its keys.
  unfoldable pub tuple_of : Yaml F → Option (List (Yaml F))
  tuple_of (list vs) = some (items_of (list vs))
  tuple_of (str text) = some (map (λ c. str (c ∷ [])) text)
  tuple_of (dict es) = some (map (λ (kv : Bytes × Yaml F). str kv.0) (map_of (dict es)))
  tuple_of v = none

  abbrev pub or_no_items : Option (List (Yaml F)) → List (Yaml F)
  or_no_items none = []
  or_no_items (some vs) = vs

  abbrev pub some_tuple : Option (List (Yaml F)) → Check
  some_tuple none = some type_error
  some_tuple (some vs) = none

  -- dict(v) of a section that is false or a mapping
  unfoldable pub check_dict : Yaml F → Check
  check_dict (dict es) = none
  check_dict (list vs) = none
  check_dict (str text) = none
  check_dict v = some type_error

  -- environment.get(...) at the end, of a value that is not false
  unfoldable pub check_modules : Yaml F → Check
  check_modules env =
      when (truthy py env) (
        first (when (not (is_dict env)) (some crash) ∷ some_tuple (tuple_of (modules_of env)) ∷ []))

  abbrev pub expect_of : Map F → Yaml F
  expect_of raw = or_nil py (get_null "expect" raw)

  abbrev pub fail_of : Map F → Yaml F
  fail_of raw = or_nil py (get_null "fail" raw)

  abbrev pub events_of : Map F → Yaml F
  events_of raw = or_nil py (get_null "events" raw)

  abbrev pub stimulus_of : Map F → List (Map F)
  stimulus_of raw = steps_of py (get_or "stimulus" (list end) raw)

  abbrev pub target_of : Map F → Bytes
  target_of raw = shown (get_or "target" (str (codes "wokwi")) raw)

  abbrev pub shim_of : Map F → Bytes
  shim_of raw = shown (get_or "shim" (str []) raw)

  abbrev pub section : String → Map F → Yaml F
  section key raw = get_or key (dict last) raw

  abbrev pub patterns : Map F → List Bytes
  patterns raw =
      strings py (expect_of raw)
      ++ (strings py (fail_of raw)
          ++ map (λ e. text_of (get_null "pattern" (map_of e))) (items_of (events_of raw)))

  abbrev pub level_ok : Yaml F → Bool
  level_ok null = true
  level_ok v = in_range 5 (int_of v)

  -- Something to score.
  abbrev pub has_detector : Map F → Bool
  has_detector raw =
      not (is_empty (strings py (expect_of raw)))
      || ((truthy py (get_null "events" raw) && is_target "unix" (target_of raw))
          || (is_target "plant" (target_of raw) && truthy py (get_null "plant" raw)))

  -- The checks of load_task in its order.
  unfoldable pub checks : Map F → List Check
  checks raw =
      let target = target_of raw in
      let stimulus = stimulus_of raw in
      let plant = section "plant" raw in
      let notes = or_nil py (get_null "notes" raw) in
      let boot = or_nil py (get_null "boot_expect" raw) in
      let scenario = get_null "scenario" raw in
      demand (is_text (get_null "name" raw))
      ∷ demand (list_of py (λ v. is_str v) (expect_of raw))
      ∷ demand (list_of py (λ v. is_str v) (fail_of raw))
      ∷ demand (is_null scenario || is_str scenario)
      ∷ check_timeout (to_number (get_or "timeout_sec" (int (pos 30)) raw))
      ∷ check_stimulus py (get_or "stimulus" (list end) raw)
      ∷ demand (among task_targets target)
      ∷ demand (not (is_target "unix" target && some_step "set-control" stimulus))
      ∷ demand (not (among anchored target && unanchored false stimulus))
      ∷ check_renode py target (section "renode" raw)
      ∷ check_noise py target (section "noise" raw)
      ∷ check_mqtt py target stimulus (section "mqtt" raw)
      ∷ demand (is_empty (shim_of raw) || is_target "unix" target)
      ∷ demand (is_empty (shim_of raw) || is_target "machine" (shim_of raw))
      ∷ check_events py target (events_of raw)
      ∷ demand (all py.compiles (patterns raw))
      ∷ demand (not (truthy py plant) || is_target "plant" target)
      ∷ when (is_target "plant" target) (check_plant py plant)
      ∷ check_tags py (get_or "tags" (list end) raw)
      ∷ demand (level_ok (get_null "level" raw))
      ∷ demand (list_of py not_blank notes)
      ∷ demand (list_of py not_blank boot)
      ∷ demand (all (λ b. member b (strings py (expect_of raw))) (strings py boot))
      ∷ check_environment target (get_null "environment" raw)
      ∷ demand (has_detector raw)
      ∷ demand (not_blank (get_or "entry" (str (codes "main.py")) raw))
      ∷ check_dict plant
      ∷ check_dict (section "mqtt" raw)
      ∷ check_modules (get_null "environment" raw)
      ∷ []

  -- str(environment.get("api_hint") or ""), where the environment is read
  abbrev pub api_hint_of : Bytes → Yaml F → Bytes
  api_hint_of target env =
      let hint = get_null "api_hint" (map_of env) in
      if among ("unix" ∷ "real" ∷ "wokwi" ∷ "renode" ∷ []) target && truthy py hint
      then shown hint
      else []

  abbrev pub scenario_of : Yaml F → Option Bytes
  scenario_of (str text) = some text
  scenario_of _ = none

  unfoldable pub task_of : Map F → Task F
  task_of raw = record {
    name = text_of (get_null "name" raw);
    description = shown (get_or "description" (str []) raw);
    scenario = scenario_of (get_null "scenario" raw);
    entry = text_of (get_or "entry" (str (codes "main.py")) raw);
    timeout_sec = int_or_zero (to_number (get_or "timeout_sec" (int (pos 30)) raw)).0;
    expect = strings py (expect_of raw);
    fail = strings py (fail_of raw);
    stimulus = stimulus_of raw;
    target = target_of raw;
    renode = map_of (section "renode" raw);
    noise = map_of (section "noise" raw);
    plant = map_of (section "plant" raw);
    mqtt = map_of (section "mqtt" raw);
    shim = shim_of raw;
    events = steps_of py (events_of raw);
    tags = strings py (get_or "tags" (list end) raw);
    level = int_of (get_null "level" raw);
    notes = strings py (or_nil py (get_null "notes" raw));
    boot_expect = strings py (or_nil py (get_null "boot_expect" raw));
    device_modules = or_no_items (tuple_of (modules_of (get_null "environment" raw)));
    api_hint = api_hint_of (target_of raw) (get_null "environment" raw);
  }

  unfoldable pub load_map : Map F → Option Error → Task F ⊎ Error
  load_map raw none = inl (task_of raw)
  load_map raw (some e) = inr e

  -- The file's value; none where there is no file.
  unfoldable pub load_task : Option (Yaml F) → Task F ⊎ Error
  load_task none = inr value_error
  load_task (some (dict es)) = load_map (map_of (dict es)) (first (checks (map_of (dict es))))
  load_task (some v) = inr type_error
