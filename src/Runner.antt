-- ===== src/Runner.antt =====
-- src/ironbench/runner.py and runner_common.py: the dispatch of a task to its target, and what the
-- targets share.
--
-- The targets' runners and the search of a regex are parameters; times are numbers on one clock.
pub mod Writer
pub mod Backlog
pub mod Answer
pub mod Box
pub mod Events
pub mod Env
pub mod Runs
pub mod Dispatch
mod Tests
mod DispatchTests
use ironharness.Prelude.{
  Bool, true, false, not, ◌&&◌, Option, none, some, List, [], ◌∷◌, Bytes, if◌then◌else◌,
}
use ironharness.Prelude.Integer.{ℤ}
use ironharness.Agent.{Kind}

pub record TaskResult : Type 0 where
  pub task : Bytes
  pub passed : Bool
  pub exit_code : Option ℤ
  pub serial_log : Option Bytes
  pub missed : List Bytes
  pub hit_fail : List Bytes
  pub error : Option Bytes
  pub error_kind : Kind

unfoldable pub filter : {A : Type 0} → (A → Bool) → List A → List A
filter test [] = []
filter test (a ∷ more) = let rest = filter test more in if test a then a ∷ rest else rest

module _ (search : Bytes → Bytes → Bool) where
  -- The patterns that are missing, and those that must not be there.
  unfoldable pub check_patterns : Bytes → List Bytes → List Bytes → List Bytes × List Bytes
  check_patterns text expect fail =
      (filter (λ p. not (search p text)) expect, filter (λ p. search p text) fail)
