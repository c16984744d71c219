-- ===== src/Agent/Attempt.antt =====
-- `solve_attempt` and `solve` of src/ironbench/agent.py: what an attempt comes to, and a campaign.
--
-- The clock is left out, and with it duration_sec. The journal is a parameter on the world, which
-- does nothing where there is none.
use ironharness.Prelude.{
  ℕ, zero, suc, ◌+◌, Bool, false, Option, none, some, List, [], ◌∷◌, ◌++◌, Bytes, if◌then◌else◌,
}
use ironharness.Prelude.Text.{codes, decimal}
use ironharness.Agent.{
  Kind, none_kind, infra, run, TaskResult, Reply, Message, Progress, Outcome, ended, aborted, loop,
}

pub record AttemptResult : Type 0 where
  pub task : Bytes
  pub attempt : ℕ
  pub solved : Bool
  pub iterations : ℕ
  pub error : Option Bytes
  pub error_kind : Kind

-- What is journaled: "iteration" with its number, and "attempt_result" with the model and whether
-- the task has notes.
pub data Entry : Type 0 where
  iteration : Bytes → ℕ → ℕ → Entry
  attempt_result : AttemptResult → Bytes → Bool → Entry

-- An attempt, or the code of the SystemExit that ends the campaign.
pub data Verdict : Type 0 where
  finished : AttemptResult → Verdict
  exited : ℕ → Verdict

pub data Campaign : Type 0 where
  results : List AttemptResult → Campaign
  stopped_by : ℕ → Campaign

unfoldable pub begin : List Message → Progress
begin messages = record {
  messages = messages;
  iterations = 0;
  solved = false;
  llm_failed = false;
  run_kind = none;
  error = none;
}

abbrev pub exhausted : ℕ → Option Bytes → Option Bytes
exhausted n none = some (codes "iteration limit (" ++ (decimal n ++ codes ") exhausted"))
exhausted n (some text) = some text

unfoldable pub final_error : ℕ → Progress → Option Bytes
final_error n p = if p.solved then p.error else exhausted n p.error

abbrev pub or_run : Option Kind → Kind
or_run none = run
or_run (some kind) = kind

unfoldable pub classify : Progress → Kind
classify p = if p.solved then none_kind else if p.llm_failed then infra else or_run p.run_kind

unfoldable pub verdict : {W : Type 0} → Bytes → ℕ → ℕ → Outcome × W → Verdict × W
verdict task n attempt (ended p, w) =
    let r : AttemptResult = record {
      task = task;
      attempt = attempt;
      solved = p.solved;
      iterations = p.iterations;
      error = final_error n p;
      error_kind = classify p;
    } in
    (finished r, w)
verdict task n attempt (aborted code, w) = (exited code, w)

abbrev pub and_result : {W : Type 0} → AttemptResult → Campaign × W → Campaign × W
and_result r (results rs, w) = (results (r ∷ rs), w)
and_result r (stopped_by code, w) = (stopped_by code, w)

unfoldable pub add_verdict : {W : Type 0} → Verdict × W → (W → Campaign × W) → Campaign × W
add_verdict (exited code, w) rest = (stopped_by code, w)
add_verdict (finished r, w) rest = and_result r (rest w)

module _ {W : Type 0} (llm : List Message → W → Reply × W) (runner : Bytes → W → TaskResult × W)
    (journal : Entry → W → W) (task : Bytes) (messages : List Message) (max_iterations : ℕ) where
  unfoldable pub solve_attempt : ℕ → W → Verdict × W
  solve_attempt attempt w =
      verdict task max_iterations attempt (
        loop llm runner (λ n. journal (iteration task attempt n)) max_iterations (begin messages) w)

  -- The attempts from a number on, so many.
  unfoldable pub attempts_from : ℕ → ℕ → W → Campaign × W
  attempts_from n zero w = (results [], w)
  attempts_from n (suc more) w = add_verdict (solve_attempt n w) (attempts_from (n + 1) more)

  unfoldable pub report_all : Bytes → Bool → List AttemptResult → W → W
  report_all model notes [] w = w
  report_all model notes (r ∷ rs) w =
      report_all model notes rs (journal (attempt_result r model notes) w)

  unfoldable pub reported : Bytes → Bool → Campaign × W → Campaign × W
  reported model notes (results rs, w) = (results rs, report_all model notes rs w)
  reported model notes (stopped_by code, w) = (stopped_by code, w)

  unfoldable pub solve : Bytes → Bool → ℕ → W → Campaign × W
  solve model notes attempts w = reported model notes (attempts_from 1 attempts w)
