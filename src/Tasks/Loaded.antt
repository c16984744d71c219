-- ===== src/Tasks/Loaded.antt =====
-- A task that loads is compatible with its own target.
use ironharness.Prelude.{◌≡◌, refl, Bool, true, false, not, Option, none, some, [], inl, inr, ◌⊎◌}
use ironharness.Tasks.{Task, Error, demand, first, is_target, among, task_targets, anchored}
use ironharness.Tasks.Values.{Yaml, null, bool, int, float, str, list, dict, Python, Map, map_of}
use ironharness.Tasks.Compat.{findings, check_target_compat}
use ironharness.Tasks.Load.{target_of, section, stimulus_of, checks, task_of, load_map, load_task}
use ironharness.Tasks.Stimulus.{some_step, unanchored}
use ironharness.Tasks.Facts.{
  AllPass, first-AllPass, NoneFound, gather-NoneFound, not_both, one_of, one_of_empty, false-map_of,
  plant_facts, noise_facts, mqtt_facts, events_facts, renode_facts, detector_facts,
}

module _ {F : Type 0} (py : Python F) where
  checks-NoneFound : (raw : Map F) → AllPass (checks py raw) → NoneFound (findings (task_of py raw))
  unfolding checks task_of findings
  checks-NoneFound raw ok =
      let to_target = ok.1.1.1.1.1.1 in
      let from_renode = to_target.1.1.1 in
      let from_events = from_renode.1.1.1.1.1 in
      let plant =
        plant_facts py (is_target "plant" (target_of py raw)) (section py "plant" raw)
          from_events.1.1.1.0 in
      let mqtt =
        mqtt_facts py (target_of py raw) (stimulus_of py raw) (section py "mqtt" raw)
          from_renode.1.1.0 in
      let target = target_of py raw in
      let stimulus = stimulus_of py raw in
      (
        known (among task_targets target) to_target.0,
        (
          one_of_empty _ _ _ (false-map_of py (section py "plant" raw)) from_events.1.1.0,
          (
            plant,
            (
              events_facts py _ _ from_events.0,
              (
                one_of _ _ from_renode.1.1.1.0,
                (
                  noise_facts py _ _ from_renode.1.0,
                  (
                    mqtt.0,
                    (
                      not_both (is_target "unix" target) (some_step "set-control" stimulus)
                          to_target.1.0,
                      (
                        mqtt.1,
                        (
                          renode_facts py _ _ from_renode.0,
                          (
                            not_both (among anchored target) (unanchored false stimulus)
                                to_target.1.1.0,
                            (
                              detector_facts py raw from_events.1.1.1.1.1.1.1.1.1.1.0 plant
                                  from_events.0,
                              tt,
                            ),
                          ),
                        ),
                      ),
                    ),
                  ),
                ),
              ),
            ),
          ),
        ),
      )
    where
      known : (b : Bool) → demand b ≡ none → not b ≡ false
      known true e = refl
      known false e = cc e

-- What load_task gives is a task that check_target_compat finds no problem with.
abbrev pub IsCompatible : {F : Type 0} → Task F ⊎ Error → Type 0
IsCompatible (inl t) = check_target_compat t ≡ []
IsCompatible (inr e) = Unit {0}

load_map-IsCompatible :
    {F : Type 0} (py : Python F) (raw : Map F) (o : Option Error)
    → first (checks py raw) ≡ o
    → IsCompatible (load_map py raw o)
unfolding load_map check_target_compat
load_map-IsCompatible py raw none e =
    gather-NoneFound (findings (task_of py raw))
      (checks-NoneFound py raw (first-AllPass (checks py raw) e))
load_map-IsCompatible py raw (some x) e = tt

-- Whatever the file holds: a task that load_task accepts is one in which check_target_compat finds
-- no problem, with its own target.
pub load_task-IsCompatible :
    {F : Type 0} (py : Python F) (file : Option (Yaml F)) → IsCompatible (load_task py file)
unfolding load_task
load_task-IsCompatible py none = tt
load_task-IsCompatible py (some (dict es)) = load_map-IsCompatible py (map_of (dict es)) _ refl
load_task-IsCompatible py (some (list vs)) = tt
load_task-IsCompatible py (some (str text)) = tt
load_task-IsCompatible py (some (int n)) = tt
load_task-IsCompatible py (some (float x)) = tt
load_task-IsCompatible py (some (bool b)) = tt
load_task-IsCompatible py (some null) = tt
