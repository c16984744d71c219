-- ===== src/Runner/Dispatch.antt =====
-- `run_task` and `is_infra_error` of src/ironbench/runner.py, and `_journal_result` of
-- src/ironbench/runner_common.py.
--
-- The clock is left out, and with it duration_sec; the texts of the ValueErrors are a parameter.
use ironharness.Prelude.{
  ◌≡◌, refl, Bool, true, false, not, ◌&&◌, ◌||◌, Option, none, some, List, [], ◌∷◌, ◌++◌, Bytes,
  ◌⊎◌, inl, inr, if◌then◌else◌,
}
use ironharness.Prelude.Search.{contains}
use ironharness.Prelude.Text.{codes}
use ironharness.Agent.{Kind, infra}
use ironharness.Tasks.{Task, is_target}
use ironharness.Tasks.Compat.{Problem, check_target_compat}
use ironharness.Runner.{TaskResult}

-- The runners of the targets; the bool is whether a transport was injected.
pub record Targets (F W : Type 0) : Type 0 where
  pub run_wokwi : Task F → W → TaskResult × W
  pub run_renode : Task F → W → TaskResult × W
  pub run_unix : Task F → W → TaskResult × W
  pub run_plant : Task F → W → TaskResult × W
  pub run_real : Bool → Task F → W → TaskResult × W

-- A run that was not made.
unfoldable pub refused : {F : Type 0} → Task F → Bytes → TaskResult
refused task error = record {
  task = task.name;
  passed = false;
  exit_code = none;
  serial_log = none;
  missed = task.expect;
  hit_fail = [];
  error = some error;
  error_kind = infra;
}

module _ {F W : Type 0} (targets : Targets F W) (journal : TaskResult → W → W)
    (explain : Task F → List Problem → Bytes) where
  abbrev pub journaled : TaskResult → W → TaskResult × W
  journaled r w = (r, journal r w)

  unfoldable pub run_real_task : Bool → Bool → Task F → W → TaskResult × W
  run_real_task allow_real injected task w =
      if not allow_real && not injected
      then journaled
          (refused task (
            codes
              "refused: the real target wipes main.py on the live board - pass --allow-real (CLI) / allow_real=True (library) to opt in"))
          w
      else targets.run_real injected task w

  unfoldable pub run_target : Bool → Bool → Task F → W → TaskResult × W
  run_target allow_real injected task w =
      if is_target "wokwi" task.target
      then targets.run_wokwi task w
      else if is_target "renode" task.target
      then targets.run_renode task w
      else if is_target "unix" task.target
      then targets.run_unix task w
      else if is_target "plant" task.target
      then targets.run_plant task w
      else if is_target "real" task.target
      then run_real_task allow_real injected task w
      else journaled
          (refused task
            (codes "unknown target '" ++ (task.target ++ codes "'; checks were not run")))
          w

  abbrev pub run_checked : List Problem → Bool → Bool → Task F → W → TaskResult × W
  run_checked [] allow_real injected task w = run_target allow_real injected task w
  run_checked (p ∷ ps) allow_real injected task w =
      journaled (refused task (explain task (p ∷ ps))) w

  unfoldable pub run_task : Bool → Bool → Task F → W → TaskResult × W
  run_task allow_real injected task w =
      run_checked (check_target_compat task) allow_real injected task w

unfoldable pub any_mark : List Bytes → Bytes → Bool
any_mark [] error = false
any_mark (mark ∷ marks) error = contains mark error || any_mark marks error

unfoldable pub infra_marks : List Bytes
infra_marks =
    codes "not implemented"
    ∷ codes "not supported"
    ∷ codes "not found"
    ∷ codes "failed to prepare task"
    ∷ codes "failed to connect"
    ∷ codes "not responding"
    ∷ codes "paste mode"
    ∷ codes "IRONBENCH_REAL_PORT is not set"
    ∷ []

abbrev pub is_infra : Kind → Bool
is_infra infra = true
is_infra _ = false

-- Of a result, and of a text or None.
unfoldable pub is_infra_error : TaskResult ⊎ Option Bytes → Bool
is_infra_error (inl r) = is_infra r.error_kind
is_infra_error (inr none) = false
is_infra_error (inr (some [])) = false
is_infra_error (inr (some (c ∷ cs))) = any_mark infra_marks (c ∷ cs)

-- Without the opt-in and without an injected transport, what run_task does is the same whatever
-- the runner of the real target would do.
pub run_task-gated :
    {F W : Type 0} (targets : Targets F W) (journal : TaskResult → W → W)
    (explain : Task F → List Problem → Bytes) (run_real : Bool → Task F → W → TaskResult × W)
    (task : Task F) (w : W)
    → run_task (record targets { run_real = run_real }) journal explain false false task w
      ≡ run_task targets journal explain false false task w
unfolding run_task run_target run_real_task
run_task-gated targets journal explain run_real task w = by_problems (check_target_compat task)
  where
    by_problems :
        (ps : List Problem)
        → run_checked (record targets { run_real = run_real }) journal explain ps false false task w
          ≡ run_checked targets journal explain ps false false task w
    by_problems [] = refl
    by_problems (p ∷ ps) = refl

-- A task that is not compatible with its target is not run: its result is an infrastructure error
-- that misses every expected pattern, whatever the runners, and only the journal is written.
pub run_task-refuses :
    {F W : Type 0} (targets : Targets F W) (journal : TaskResult → W → W)
    (explain : Task F → List Problem → Bytes) (allow_real injected : Bool) (task : Task F) (w : W)
    → (check_target_compat task ≡ [] → ⊥)
    → let r = refused task (explain task (check_target_compat task)) in
      run_task targets journal explain allow_real injected task w ≡ (r, journal r w)
unfolding run_task
run_task-refuses targets journal explain allow_real injected task w bad =
    by_problems (check_target_compat task) refl
  where
    by_problems :
        (ps : List Problem)
        → check_target_compat task ≡ ps
        → run_checked targets journal explain ps allow_real injected task w
          ≡ (refused task (explain task ps), journal (refused task (explain task ps)) w)
    by_problems [] e = absurd (bad e)
    by_problems (p ∷ ps) e = refl
