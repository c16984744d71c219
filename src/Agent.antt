-- ===== src/Agent.antt =====
-- src/ironbench/agent.py: the loop in which a model writes a program and a runner judges it.
--
-- The model and the runner are parameters on a state of the world. The pause between two tries only
-- lets time pass. A log that a run leaves is its text, none where there is no file. What is saved of
-- a round is kept in the world by the runner; `note` journals that a round runs its code.
pub mod Prompt
pub mod Config
pub mod Attempt
pub mod Code
pub mod Chat
pub mod Fenced
pub mod Feedback
pub mod Endpoint
pub mod Bounded
pub mod Campaign
pub mod Verdict
mod Tests
mod BoundaryTests
use ironharness.Prelude.{
  ℕ, zero, suc, ◌+◌, Bool, true, false, Option, none, some, List, [], ◌∷◌, ◌++◌, Bytes, ◌==◌,
  if◌then◌else◌, ◌||◌,
}
use ironharness.Prelude.Text.{codes}
use ironharness.Agent.Code.{extract_code}
use ironharness.Agent.Feedback.{serial_feedback}

-- error_kind
pub data Kind : Type 0 where
  none_kind infra timeout run : Kind

pub record TaskResult : Type 0 where
  pub passed : Bool
  pub serial_log : Option Bytes
  pub error : Option Bytes
  pub error_kind : Kind

-- What a call of the model gives: an answer, an HTTPError with its code, or one of the other
-- exceptions that are caught.
pub data Reply : Type 0 where
  answer : Bytes → Reply
  http_error : ℕ → Bytes → Reply
  other_error : Bytes → Reply

pub data Role : Type 0 where
  system user assistant : Role

abbrev pub Message : Type 0
Message = Role × Bytes

unfoldable pub is_permanent : ℕ → Bool
is_permanent code = code == 400 || code == 401 || code == 403 || code == 404

-- The end of the tries of a round: an answer, the error of the last try, or the code of the
-- SystemExit.
pub data Asked : Type 0 where
  answered : Bytes → Asked
  gave_up : Bytes → Asked
  config_error : ℕ → Asked

abbrev pub is_infra : Kind → Bool
is_infra infra = true
is_infra _ = false

unfoldable pub failed_check : Option Bytes → Bytes → Bytes
failed_check error feedback =
    let why : Bytes = elim error [ none ↦ [] | some e ↦ reason e ] in
    codes "The check failed."
    ++ (why
        ++ (10
            ∷ 10
            ∷ (codes "Run output:"
                ++ (10
                    ∷ 10
                    ∷ (feedback
                        ++ (10
                            ∷ 10
                            ∷ codes
                                "Fix the code and again send exactly one ```python block with the full main.py."))))))
  where
    reason : Bytes → Bytes
    reason [] = []
    reason (c ∷ cs) = codes " Reason: " ++ c ∷ cs

unfoldable pub no_block : Bytes
no_block =
    codes
      "The answer has no ```python block. Try again: exactly one ```python block with the full main.py code."

-- The variables of the loop. `run_kind` is that of the last verdict.
pub record Progress : Type 0 where
  pub messages : List Message
  pub iterations : ℕ
  pub solved : Bool
  pub llm_failed : Bool
  pub run_kind : Option Kind
  pub error : Option Bytes

-- The attempt, or the abort of the campaign.
pub data Outcome : Type 0 where
  ended : Progress → Outcome
  aborted : ℕ → Outcome

abbrev pub say : Role → Bytes → Progress → Progress
say role text p = record p { messages = p.messages ++ (role, text) ∷ [] }

unfoldable pub or_retry : {W : Type 0} → Reply × W → (Bytes → W → Asked × W) → Asked × W
or_retry (answer text, w) again = (answered text, w)
or_retry (http_error code text, w) again =
    if is_permanent code then (config_error code, w) else again text w
or_retry (other_error text, w) again = again text w

-- What follows a verdict; `again` is the rest of the loop.
unfoldable pub judged :
    {W : Type 0} → Bytes → TaskResult × W → Progress → (Progress → W → Outcome × W) → Outcome × W
judged response (r, w) p again =
    let p' = record p { run_kind = some r.error_kind } in
    let more =
      again
        (say user (failed_check r.error (serial_feedback r.serial_log)) (say assistant response p'))
        w in
    if r.passed
    then (ended (record p' { solved = true }), w)
    else if is_infra r.error_kind
    then (ended (record p' { error = some (stopped r.error) }), w)
    else more
  where
    stopped : Option Bytes → Bytes
    stopped none = codes "environment not ready, attempt stopped: None"
    stopped (some e) = codes "environment not ready, attempt stopped: " ++ e

module _ {W : Type 0} (llm : List Message → W → Reply × W) (runner : Bytes → W → TaskResult × W)
    (note : ℕ → W → W) where
  -- The tries of a round: the call, and so many more.
  unfoldable pub ask : ℕ → List Message → W → Asked × W
  ask zero messages w = or_retry (llm messages w) (λ text w'. (gave_up text, w'))
  ask (suc more) messages w = or_retry (llm messages w) (λ text w'. ask more messages w')

  -- What follows an answer.
  unfoldable pub taken :
      Bytes → Option Bytes → Progress → W → (Progress → W → Outcome × W) → Outcome × W
  taken response none p w again = again (say user no_block (say assistant response p)) w
  taken response (some code) p w again = judged response (runner code (note p.iterations w)) p again

  unfoldable pub asked : Asked × W → Progress → (Progress → W → Outcome × W) → Outcome × W
  asked (answered response, w) p again = taken response (extract_code response) p w again
  asked (gave_up text, w) p again =
      (ended (record p { llm_failed = true; error = some (codes "LLM error: " ++ text) }), w)
  asked (config_error code, w) p again = (aborted code, w)

  -- The loop, with so many rounds left.
  unfoldable pub loop : ℕ → Progress → W → Outcome × W
  loop zero p w = (ended p, w)
  loop (suc left) p w =
      let p' = record p { iterations = p.iterations + 1 } in
      asked (ask 2 p.messages w) p' (loop left)
