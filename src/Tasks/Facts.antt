-- ===== src/Tasks/Facts.antt =====
-- What the passed checks of `load_task` say of the single sections of src/ironbench/tasks.py.
use ironharness.Prelude.{
  ◌≡◌, refl, sym, ap, subst, if_true, Bool, true, false, not, ◌&&◌, ◌||◌, none, some, List, [], ◌∷◌,
  Bytes,
}
use ironharness.Tasks.{
  Task, Check, Error, demand, demand_type, when, first, is_empty, is_target, among, task_targets,
  anchored,
}
use ironharness.Tasks.Values.{
  Yaml, null, bool, int, float, str, list, dict, Items, end, item, Entries, last, entry, Python,
  Map, get_null, truthy, map_of, items_of, is_dict,
}
use ironharness.Tasks.PlantSection.{check_plant}
use ironharness.Tasks.Compat.{has_task_detector, Problem, gather}
use ironharness.Tasks.Load.{has_detector, target_of, section, events_of, expect_of, task_of}
use ironharness.Tasks.Stimulus.{mqtt_step}
use ironharness.Tasks.Sections.{
  strings, list_of, steps_of, or_nil, has_renode, check_renode, check_noise, check_mqtt,
  check_events,
}

-- Every check passes.
abbrev pub AllPass : List Check → Type 0
AllPass [] = Unit {0}
AllPass (c ∷ cs) = (c ≡ none) × AllPass cs

pub first-AllPass : (cs : List Check) → first cs ≡ none → AllPass cs
unfolding first
first-AllPass [] e = tt
first-AllPass (none ∷ cs) e = (refl, first-AllPass cs e)
first-AllPass (some x ∷ cs) e = cc e

demanded : (b : Bool) → demand b ≡ none → b ≡ true
demanded true e = refl
demanded false e = cc e

-- No problem is found.
abbrev pub NoneFound : List (Bool × Problem) → Type 0
NoneFound [] = Unit {0}
NoneFound (f ∷ fs) = (f.0 ≡ false) × NoneFound fs

pub gather-NoneFound : (fs : List (Bool × Problem)) → NoneFound fs → gather fs ≡ []
unfolding gather
gather-NoneFound [] found = refl
gather-NoneFound ((true, p) ∷ fs) (e, more) = cc e
gather-NoneFound ((false, p) ∷ fs) (e, more) = gather-NoneFound fs more

-- Whatever the check, if it is made and passes, so does what it demands.
demanded_when : (c b : Bool) → when c (demand b) ≡ none → c && not b ≡ false
demanded_when true true e = refl
demanded_when true false e = cc e
demanded_when false b e = refl

pub not_both : (a b : Bool) → demand (not (a && b)) ≡ none → a && b ≡ false
not_both true true e = cc e
not_both true false e = refl
not_both false b e = refl

pub one_of : (a b : Bool) → demand (a || b) ≡ none → not a && not b ≡ false
one_of true b e = refl
one_of false true e = refl
one_of false false e = cc e

-- Where the section is empty if it is false, as one_of.
pub one_of_empty :
    (t b empty : Bool)
    → (t ≡ false → empty ≡ true)
    → demand (not t || b) ≡ none
    → not empty && not b ≡ false
one_of_empty t true true sure e = refl
one_of_empty t true false sure e = refl
one_of_empty true false empty sure e = cc e
one_of_empty false false empty sure e = ap (λ (x : Bool). not x && true) (sure refl)

-- Something to score is still there as the task has it: the events if they are true, the plant's
-- section if the target is its.
detect :
    (expects true_events on_unix on_plant q events no_plant : Bool)
    → demand (expects || (true_events && on_unix || on_plant && q)) ≡ none
    → (true_events ≡ true → events ≡ true)
    → on_plant && no_plant ≡ false
    → not (expects || (events && on_unix || not no_plant && on_plant)) ≡ false
detect true t u p q ev np e sure plant = refl
detect false true true p q ev np e sure plant = rw (sure refl) refl
detect false t u true q ev true e sure plant = cc plant
detect false t u true q ev false e sure plant = or_true (ev && u)
  where
    or_true : (b : Bool) → not (b || true) ≡ false
    or_true true = refl
    or_true false = refl
detect false false u false q ev np e sure plant = cc e
detect false true false false q ev np e sure plant = cc e

module _ {F : Type 0} (py : Python F) where
  pub false-map_of : (v : Yaml F) → truthy py v ≡ false → is_empty (map_of v) ≡ true
  unfolding truthy is_empty ironharness.Tasks.Values.entries
  false-map_of (dict last) e = refl
  false-map_of (dict (entry k v es)) e = cc e
  false-map_of (list vs) e = refl
  false-map_of (str text) e = refl
  false-map_of (int n) e = refl
  false-map_of (float x) e = refl
  false-map_of (bool b) e = refl
  false-map_of null e = refl

  false-items_of : (v : Yaml F) → truthy py v ≡ false → is_empty (steps_of py v) ≡ true
  unfolding truthy is_empty ironharness.Tasks.Values.items
  false-items_of (list end) e = refl
  false-items_of (list (item v vs)) e = cc e
  false-items_of (dict es) e = refl
  false-items_of (str text) e = refl
  false-items_of (int n) e = refl
  false-items_of (float x) e = refl
  false-items_of (bool b) e = refl
  false-items_of null e = refl

  -- A part of a check passes where the check does.
  part : (cs : List Check) → first cs ≡ none → AllPass cs
  part = first-AllPass

  pub plant_facts :
      (b : Bool) (v : Yaml F) → when b (check_plant py v) ≡ none → b && is_empty (map_of v) ≡ false
  unfolding check_plant
  plant_facts true v e = by_empty (is_empty (map_of v)) (part _ e).1.0
    where
      by_empty : (b : Bool) → demand (not b) ≡ none → b ≡ false
      by_empty true e = cc e
      by_empty false e = refl
  plant_facts false v e = refl

  pub noise_facts :
      (target : Bytes) (v : Yaml F)
      → check_noise py target v ≡ none
      → not (is_empty (map_of v)) && not (is_target "unix" target) ≡ false
  unfolding check_noise
  noise_facts target v e =
      one_of (is_empty (map_of v)) (is_target "unix" target) (part _ e).1.1.1.1.1.1.0

  pub mqtt_facts :
      (target : Bytes) (steps : List (Map F)) (v : Yaml F)
      → check_mqtt py target steps v ≡ none
      → (not (is_empty (map_of v)) && not (is_target "unix" target) ≡ false)
        × (not (is_target "unix" target) && mqtt_step steps ≡ false)
  unfolding check_mqtt
  mqtt_facts target steps v e =
      let facts = part _ e in
      (
        one_of_empty (truthy py v) (is_target "unix" target) (is_empty (map_of v)) (false-map_of v)
            facts.0,
        swapped (mqtt_step steps) (is_target "unix" target) (demanded_when _ _ facts.1.0),
      )
    where
      swapped : (a b : Bool) → a && not b ≡ false → not b && a ≡ false
      swapped true true e = refl
      swapped true false e = cc e
      swapped false true e = refl
      swapped false false e = refl

  pub events_facts :
      (target : Bytes) (v : Yaml F)
      → check_events py target v ≡ none
      → not (is_empty (steps_of py v)) && not (is_target "unix" target) ≡ false
  unfolding check_events
  events_facts target v e =
      one_of_empty (truthy py v) (is_target "unix" target) (is_empty (steps_of py v))
        (false-items_of v) (part _ e).0

  pub renode_facts :
      (target : Bytes) (v : Yaml F)
      → check_renode py target v ≡ none
      → is_target "renode" target && not (has_renode (map_of v)) ≡ false
  unfolding check_renode
  renode_facts target v e = demanded_when _ _ (part _ e).1.1.0

  listed :
      (v : Yaml F)
      → truthy py v ≡ true
      → list_of py (λ x. is_dict x) v ≡ true
      → is_empty (steps_of py v) ≡ false
  unfolding truthy is_empty ironharness.Tasks.Values.items
  listed (list (item v vs)) e is = refl
  listed (list end) e is = cc e
  listed (dict es) e is = cc is
  listed (str text) e is = cc is
  listed (int n) e is = cc is
  listed (float x) e is = cc is
  listed (bool b) e is = cc is
  listed null e is = cc is

  events_listed :
      (target : Bytes) (v : Yaml F)
      → check_events py target (or_nil py v) ≡ none
      → truthy py v ≡ true
      → not (is_empty (steps_of py (or_nil py v))) ≡ true
  unfolding check_events
  events_listed target v e t = ap not (
      subst (λ (x : Yaml F). is_empty (steps_of py x) ≡ false) (sym same)
        (listed v t (
          subst (λ (x : Yaml F). list_of py (λ y. is_dict y) x ≡ true) same
            (demanded _ (part _ e).1.0))))
    where
      same : or_nil py v ≡ v
      same = if_true v (list end) t

  pub detector_facts :
      (raw : Map F)
      → demand (has_detector py raw) ≡ none
      → (is_target "plant" (target_of py raw) && is_empty (map_of (section py "plant" raw)) ≡ false)
      → check_events py (target_of py raw) (events_of py raw) ≡ none
      → not (has_task_detector (task_of py raw)) ≡ false
  unfolding task_of
  detector_facts raw e plant events =
      detect (not (is_empty (strings py (expect_of py raw)))) (truthy py (get_null "events" raw))
        (is_target "unix" (target_of py raw)) (is_target "plant" (target_of py raw))
        (truthy py (get_null "plant" raw)) _ (is_empty (map_of (section py "plant" raw))) e
        (events_listed _ _ events) plant
