-- ===== src/Tasks.antt =====
-- src/ironbench/tasks.py: the description of a task, read from task.yaml and checked.
--
-- A description that does not check raises a ValueError with the path, and in places a TypeError or
-- another exception; the texts are left out. The directory and what safe_load refuses are outside.
pub mod Values
pub mod Stimulus
pub mod PlantSection
pub mod Sections
pub mod Load
pub mod Compat
pub mod Facts
pub mod Loaded
mod Tests
use ironharness.Prelude.{
  Bool, true, false, not, ◌&&◌, ◌||◌, Option, none, some, List, [], ◌∷◌, Bytes, String,
  if◌then◌else◌,
}
use ironharness.Prelude.Integer.{ℤ}
use ironharness.Prelude.Search.{same_bytes}
use ironharness.Prelude.Text.{codes}
use ironharness.Tasks.Values.{Yaml, Map}

pub record Task (F : Type 0) : Type 0 where
  pub name : Bytes
  pub description : Bytes
  pub scenario : Option Bytes
  pub entry : Bytes
  pub timeout_sec : ℤ
  pub expect : List Bytes
  pub fail : List Bytes
  pub stimulus : List (Map F)
  pub target : Bytes
  pub renode : Map F
  pub noise : Map F
  pub plant : Map F
  pub mqtt : Map F
  pub shim : Bytes
  pub events : List (Map F)
  pub tags : List Bytes
  pub level : Option ℤ
  pub notes : List Bytes
  pub boot_expect : List Bytes
  pub device_modules : List (Yaml F)
  pub api_hint : Bytes

-- What is raised; `crash` is neither a ValueError nor a TypeError.
pub data Error : Type 0 where
  value_error type_error crash : Error

-- A check, with what it raises.
abbrev pub Check : Type 0
Check = Option Error

abbrev pub demand : Bool → Check
demand true = none
demand false = some value_error

abbrev pub demand_type : Bool → Check
demand_type true = none
demand_type false = some type_error

-- A check that is made only under a condition.
abbrev pub when : Bool → Check → Check
when true check = check
when false check = none

-- Checks in order, up to the first that raises.
unfoldable pub first : List Check → Check
first [] = none
first (none ∷ checks) = first checks
first (some e ∷ checks) = some e

unfoldable pub all : {A : Type 0} → (A → Bool) → List A → Bool
all test [] = true
all test (a ∷ more) = let rest = all test more in test a && rest

unfoldable pub any : {A : Type 0} → (A → Bool) → List A → Bool
any test [] = false
any test (a ∷ more) = let rest = any test more in test a || rest

unfoldable pub each : {A : Type 0} → (A → Check) → List A → Check
each check [] = none
each check (a ∷ more) = first (check a ∷ each check more ∷ [])

abbrev pub among : List String → Bytes → Bool
among words text = any (λ word. same_bytes (codes word) text) words

unfoldable pub is_empty : {A : Type 0} → List A → Bool
is_empty [] = true
is_empty (a ∷ more) = false

abbrev pub is_target : String → Bytes → Bool
is_target word target = same_bytes (codes word) target

-- TASK_TARGETS
abbrev pub task_targets : List String
task_targets = "wokwi" ∷ "renode" ∷ "unix" ∷ "plant" ∷ "real" ∷ []

-- The targets whose answers are anchored to a stimulus.
abbrev pub anchored : List String
anchored = "unix" ∷ "renode" ∷ "real" ∷ []
