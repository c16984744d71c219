-- ===== src/Tasks/Compat.antt =====
-- `check_target_compat` of src/ironbench/tasks.py: a task whose target was replaced.
use ironharness.Prelude.{Bool, true, false, not, ◌&&◌, ◌||◌, List, [], ◌∷◌, ◌++◌}
use ironharness.Tasks.{Task, is_empty, is_target, among, task_targets, anchored}
use ironharness.Tasks.Stimulus.{some_step, unanchored, mqtt_step}
use ironharness.Tasks.Sections.{has_renode}

pub data Problem : Type 0 where
  unknown_target plant_elsewhere plant_without_detector events_elsewhere shim_elsewhere : Problem
  noise_elsewhere mqtt_elsewhere control_on_unix mqtt_step_elsewhere renode_without_firmware :
      Problem
  wait_without_trigger no_detector : Problem

abbrev pub report : Bool → Problem → List Problem
report true problem = problem ∷ []
report false problem = []

unfoldable pub gather : List (Bool × Problem) → List Problem
gather [] = []
gather ((found, problem) ∷ more) = report found problem ++ gather more

module _ {F : Type 0} where
  abbrev pub has_task_detector : Task F → Bool
  has_task_detector t =
      not (is_empty t.expect)
      || ((not (is_empty t.events) && is_target "unix" t.target)
          || (not (is_empty t.plant) && is_target "plant" t.target))

  -- The problems in order; the source raises a ValueError if there is one.
  unfoldable pub findings : Task F → List (Bool × Problem)
  findings t =
      let on_unix = is_target "unix" t.target in
      let on_plant = is_target "plant" t.target in
      (not (among task_targets t.target), unknown_target)
      ∷ (not (is_empty t.plant) && not on_plant, plant_elsewhere)
      ∷ (on_plant && is_empty t.plant, plant_without_detector)
      ∷ (not (is_empty t.events) && not on_unix, events_elsewhere)
      ∷ (not (is_empty t.shim) && not on_unix, shim_elsewhere)
      ∷ (not (is_empty t.noise) && not on_unix, noise_elsewhere)
      ∷ (not (is_empty t.mqtt) && not on_unix, mqtt_elsewhere)
      ∷ (on_unix && some_step "set-control" t.stimulus, control_on_unix)
      ∷ (not on_unix && mqtt_step t.stimulus, mqtt_step_elsewhere)
      ∷ (is_target "renode" t.target && not (has_renode t.renode), renode_without_firmware)
      ∷ (among anchored t.target && unanchored false t.stimulus, wait_without_trigger)
      ∷ (not (has_task_detector t), no_detector)
      ∷ []

  unfoldable pub check_target_compat : Task F → List Problem
  check_target_compat t = gather (findings t)
