-- ===== src/Tasks/Tests.antt =====
-- Descriptions of tasks, loaded and refused.
use ironharness.Tasks.PlantSection.{
  check_bounds, check_disturbance, check_disturbances, check_plant, check_requirement,
  check_requirements, check_times, check_value,
}
use ironharness.Tasks.Stimulus.{
  check_collect, check_control, check_publish, check_step, known_keys, unanchored, zero_or_one,
}
use ironharness.Tasks.Sections.{
  check_action, check_event, check_events, check_fault, check_mqtt, check_noise, check_period,
  check_renode, check_stimulus, check_tags, distinct,
}
use ironharness.Prelude.Search.{same_bytes}
use ironharness.Prelude.{
  ℕ, ◌≡◌, refl, true, none, some, List, [], ◌∷◌, Bytes, inl, inr, ◌⊎◌, leb, ltb,
}
use ironharness.Prelude.Integer.{pos, negsuc}
use ironharness.Prelude.Text.{codes, lstrip, rstrip, space, strip}
use ironharness.Tasks.{Task, Error, value_error, type_error, all, any, each, first, is_empty}
use ironharness.Tasks.Values.{
  Yaml, null, str, list, dict, Items, end, item, last, entry, Number, whole, real, Python, to_int,
  entries, find_key, items, not_blank, truthy,
}
use ironharness.Tasks.Load.{
  load_task, check_dict, check_environment, check_modules, check_timeout, checks, load_map, task_of,
  to_number, tuple_of,
}
use ironharness.Tasks.Compat.{
  Problem, check_target_compat, mqtt_step_elsewhere, mqtt_elsewhere, findings, gather,
}
use ironharness.Tasks.Loaded.{IsCompatible, load_task-IsCompatible}

-- Floats that are natural numbers.
abbrev magnitude : Number ℕ → ℕ
magnitude (whole (pos n)) = n
magnitude (whole (negsuc n)) = 0
magnitude (real n) = n

abbrev py : Python ℕ
py = record {
  at_most = λ x y. leb (magnitude x) (magnitude y);
  below = λ x y. ltb (magnitude x) (magnitude y);
  is_finite = λ x. true;
  to_float = magnitude;
  div = λ x y. x;
  half = 1;
  hundredth = 0;
  trunc = λ x. to_int (pos x);
  parse_int = λ text. none;
  show = λ v. codes "None";
  compiles = λ text. true;
}

abbrev strs : Bytes → Items ℕ
strs text = item (str text) end

-- A task for the unix port that publishes to the firmware.
abbrev echo : Yaml ℕ
echo = dict (
    entry (codes "name") (str (codes "echo")) (
      entry (codes "expect") (list (strs (codes "pong"))) (
        entry (codes "target") (str (codes "unix")) (
          entry (codes "mqtt") (dict (entry (codes "client_id") (str (codes "h")) last)) (
            entry (codes "stimulus")
              (list (
                item
                  (dict (
                    entry (codes "mqtt-publish")
                      (dict (
                        entry (codes "topic") (str (codes "t"))
                          (entry (codes "payload") (str []) last)))
                      last))
                  (item (dict (entry (codes "wait-serial") (str (codes "pong")) last)) end)))
              last)))))

load_task-IsCompatible_example : IsCompatible (load_task py (some echo))
load_task-IsCompatible_example = load_task-IsCompatible py (some echo)

-- `mqtt:` with no items is no empty section.
empty_mqtt :
    load_task py (
      some (
        dict (
          entry
            (codes "name")
            (str (codes "a"))
            (entry (codes "expect") (list (strs (codes "x"))) (entry (codes "mqtt") null last)))))
    ≡ inr type_error
unfolding load_task load_map first checks find_key entries same_bytes truthy all items check_timeout
    to_number check_stimulus each any check_renode known_keys lstrip rstrip space strip check_dict
    check_environment check_modules task_of tuple_of check_bounds check_disturbance
    check_disturbances check_plant check_requirement check_requirements check_times check_value
    check_action check_event check_events check_fault check_mqtt check_noise check_period check_tags
    distinct check_collect check_control check_publish check_step unanchored zero_or_one not_blank
    is_empty
empty_mqtt = refl

abbrev compat : Bytes → Task ℕ ⊎ Error → List Problem
compat target (inl t) = check_target_compat (record t { target = target })
compat target (inr e) = []

-- With another target it is not.
moved :
    compat (codes "wokwi") (load_task py (some echo)) ≡ mqtt_elsewhere ∷ mqtt_step_elsewhere ∷ []
unfolding load_task load_map first checks find_key entries same_bytes truthy all items check_timeout
    to_number check_stimulus each check_step known_keys any lstrip rstrip space strip check_dict
    check_environment check_modules task_of tuple_of check_bounds check_disturbance
    check_disturbances check_plant check_requirement check_requirements check_times check_value
    check_action check_event check_events check_fault check_mqtt check_noise check_period
    check_renode check_tags distinct check_collect check_control check_publish unanchored
    zero_or_one not_blank is_empty check_target_compat gather findings
moved = refl

nameless :
    load_task py (some (dict (entry (codes "expect") (list (strs (codes "x"))) last)))
    ≡ inr value_error
unfolding load_task load_map first checks find_key entries same_bytes
nameless = refl
