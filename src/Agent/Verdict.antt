-- ===== src/Agent/Verdict.antt =====
-- What an attempt's result says of its last run, and when a campaign is aborted.
use ironharness.Prelude.{
  ℕ, zero, suc, ◌≡◌, refl, ◌∙◌, true, false, Option, none, some, List, Bytes, if_ind, if_true,
  if_false,
}
use ironharness.Agent.{
  none_kind, TaskResult, Reply, answer, http_error, other_error, Message, Progress, Outcome, ended,
  aborted, Asked, answered, gave_up, config_error, is_permanent, is_infra, or_retry, ask, judged,
  taken, asked, loop,
}
use ironharness.Agent.Attempt.{
  Entry, iteration, Verdict, finished, exited, begin, exhausted, final_error, classify, verdict,
  solve_attempt,
}
use ironharness.Agent.Code.{extract_code}

-- The variables of a loop that goes on.
abbrev Fresh : Progress → Type 0
Fresh p = (p.solved ≡ false) × (p.error ≡ none)

module _ {W : Type 0} (Passed : W → Type 0) (Told : ℕ → W → Type 0) where
  abbrev pub ReplyTold : Reply × W → Type 0
  ReplyTold (http_error code text, w) = Told code w
  ReplyTold _ = Unit

  abbrev AskedTold : Asked × W → Type 0
  AskedTold (config_error code, w) = (is_permanent code ≡ true) × Told code w
  AskedTold _ = Unit

  -- An attempt that ended solved ended with a run that passed, without an error; one that was
  -- aborted, with a permanent status.
  abbrev EndsRight : Outcome × W → Type 0
  EndsRight (ended p, w) = (p.solved ≡ true → Passed w × (p.error ≡ none))
  EndsRight (aborted code, w) = (is_permanent code ≡ true) × Told code w

  or_retry-AskedTold :
      (r : Reply × W) (again : Bytes → W → Asked × W)
      → ReplyTold r
      → ((text : Bytes) (w : W) → AskedTold (again text w))
      → AskedTold (or_retry r again)
  unfolding or_retry
  or_retry-AskedTold (answer text, w) again told rest = tt
  or_retry-AskedTold (http_error code text, w) again told rest =
      if_ind AskedTold (is_permanent code) (λ e. (e, told)) (λ _. rest text w)
  or_retry-AskedTold (other_error text, w) again told rest = rest text w

  judged-EndsRight :
      (response : Bytes) (r : TaskResult × W) (p : Progress) (again : Progress → W → Outcome × W)
      → Fresh p
      → (r.0.passed ≡ true → Passed r.1)
      → ((p' : Progress) → Fresh p' → EndsRight (again p' r.1))
      → EndsRight (judged response r p again)
  unfolding judged
  judged-EndsRight response (r, w) p again fresh passes rest =
      if_ind EndsRight r.passed (λ e. λ _. (passes e, fresh.1))
        (λ _.
          if_ind EndsRight (is_infra r.error_kind) (λ _. λ e. cc (e, fresh.0)) (λ _. rest _ fresh))

  module _ (llm : List Message → W → Reply × W) (runner : Bytes → W → TaskResult × W)
      (note : ℕ → W → W) (tells : (ms : List Message) (w : W) → ReplyTold (llm ms w))
      (passes : (code : Bytes) (w : W)
        → (runner code w).0.passed ≡ true
        → Passed (runner code w).1) where
    ask-AskedTold :
        (more : ℕ) (ms : List Message) (w : W) → AskedTold (ask llm runner note more ms w)
    unfolding ask
    ask-AskedTold zero ms w = or_retry-AskedTold (llm ms w) _ (tells ms w) (λ _ _. tt)
    ask-AskedTold (suc more) ms w =
        or_retry-AskedTold (llm ms w) _ (tells ms w) (λ _ w'. ask-AskedTold more ms w')

    taken-EndsRight :
        (response : Bytes) (code : Option Bytes) (p : Progress) (w : W)
        (again : Progress → W → Outcome × W)
        → Fresh p
        → ((p' : Progress) (w' : W) → Fresh p' → EndsRight (again p' w'))
        → EndsRight (taken llm runner note response code p w again)
    unfolding taken
    taken-EndsRight response none p w again fresh rest = rest _ w fresh
    taken-EndsRight response (some code) p w again fresh rest =
        judged-EndsRight response (runner code (note p.iterations w)) p again fresh
          (passes code (note p.iterations w)) (λ p'. rest p' _)

    asked-EndsRight :
        (o : Asked × W) (p : Progress) (again : Progress → W → Outcome × W)
        → AskedTold o
        → Fresh p
        → ((p' : Progress) (w' : W) → Fresh p' → EndsRight (again p' w'))
        → EndsRight (asked llm runner note o p again)
    unfolding asked
    asked-EndsRight (answered response, w) p again told fresh rest =
        taken-EndsRight response (extract_code response) p w again fresh rest
    asked-EndsRight (gave_up text, w) p again told fresh rest = λ e. cc (e, fresh.0)
    asked-EndsRight (config_error code, w) p again told fresh rest = told

    loop-EndsRight :
        (left : ℕ) (p : Progress) (w : W) → Fresh p → EndsRight (loop llm runner note left p w)
    unfolding loop
    loop-EndsRight zero p w fresh = λ e. cc (e, fresh.0)
    loop-EndsRight (suc left) p w fresh =
        asked-EndsRight (ask llm runner note 2 p.messages w) _ (loop llm runner note left)
          (ask-AskedTold 2 p.messages w) fresh (λ p' w'. loop-EndsRight left p' w')

  -- A result that is solved has a run that passed behind it and no error, of kind "none"; one that is
  -- not has an error. An exit has a permanent status behind it.
  abbrev pub Right : Verdict × W → Type 0
  Right (finished r, w) =
      (r.solved ≡ true → Passed w × ((r.error ≡ none) × (r.error_kind ≡ none_kind)))
      × (r.solved ≡ false → (text : Bytes) × (r.error ≡ some text))
  Right (exited code, w) = (is_permanent code ≡ true) × Told code w

  exhausted-some : (n : ℕ) (o : Option Bytes) → (text : Bytes) × (exhausted n o ≡ some text)
  exhausted-some n none = (_, refl)
  exhausted-some n (some text) = (text, refl)

  verdict-Right :
      (task : Bytes) (n attempt : ℕ) (o : Outcome × W)
      → EndsRight o
      → Right (verdict task n attempt o)
  unfolding verdict final_error classify
  verdict-Right task n attempt (ended p, w) ends = (
    λ e.
        let (passed, clean) = ends e in
        (passed, (if_true p.error _ e ∙ clean, if_true none_kind _ e)),
    λ e. let (text, is) = exhausted-some n p.error in (text, if_false p.error _ e ∙ is),
  )
  verdict-Right task n attempt (aborted code, w) ends = ends

-- Whatever the model answers and the runner says: an attempt's result is solved only if the last
-- run passed, and then has no error and the kind "none"; a result that is not solved has an error;
-- and an attempt exits only on a reply with one of the statuses 400, 401, 403 and 404.
pub solve_attempt-Right :
    {W : Type 0} (Passed : W → Type 0) (Told : ℕ → W → Type 0) (llm : List Message → W → Reply × W)
    (runner : Bytes → W → TaskResult × W) (journal : Entry → W → W) (task : Bytes)
    (messages : List Message) (max_iterations attempt : ℕ) (w : W)
    → ((ms : List Message) (w : W) → ReplyTold Passed Told (llm ms w))
    → ((code : Bytes) (w : W) → (runner code w).0.passed ≡ true → Passed (runner code w).1)
    → Right Passed Told (solve_attempt llm runner journal task messages max_iterations attempt w)
unfolding solve_attempt begin
solve_attempt-Right Passed Told llm runner journal task messages n attempt w tells passes =
    verdict-Right Passed Told task n attempt _ (
      loop-EndsRight Passed Told llm runner (λ k. journal (iteration task attempt k)) tells passes n
        (begin messages) w (refl, refl))
