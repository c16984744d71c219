-- ===== src/Agent/Tests.antt =====
-- Runs of the definitions of src/ironbench/agent.py, and examples of its theorems.
use ironharness.Prelude.Search.{find, starts_with, same_bytes}
use ironharness.Prelude.{
  ℕ, ◌++◌, zero, suc, ◌+◌, ◌≤◌, ◌≡◌, refl, true, false, none, some, List, [], ◌∷◌, Bytes, arith,
}
use ironharness.Prelude.Text.{codes, decimal, lstrip, rstrip, space, strip, join_by}
use ironharness.Agent.{
  none_kind, TaskResult, Reply, answer, http_error, other_error, Message, ask, asked, is_permanent,
  loop, or_retry, failed_check, judged, no_block, taken,
}
use ironharness.Agent.Fenced.{opening, extract_code-fenced}
use ironharness.Agent.Code.{
  fence, extract_code, behind_line, block_at, blocks, last_of, lower, skip_language, until_fence,
}
use ironharness.Agent.Feedback.{
  parse_last_traceback, serial_feedback, behind_header, diagnosis, removesuffix, scan, breaks,
  splitlines,
}
use ironharness.Agent.Attempt.{
  AttemptResult, Entry, finished, exited, solve_attempt, solve, verdict, begin, classify,
  final_error,
}
use ironharness.Agent.Verdict.{Right, ReplyTold, solve_attempt-Right}
use ironharness.Agent.Campaign.{CampaignSpends, solve-CampaignSpends}
use ironharness.Agent.Config.{pick, pick_named}

fenced : extract_code (codes "see ```python \n a = 1\n``` or ```\nb\n```.") ≡ some (codes "b\n")
unfolding extract_code blocks block_at starts_with until_fence behind_line skip_language lower space
    find strip rstrip lstrip last_of
fenced = refl

unclosed : extract_code (codes "```python\na = 1\n``") ≡ none
unfolding extract_code blocks block_at starts_with until_fence behind_line skip_language lower space
    find
unclosed = refl

diagnosed :
    parse_last_traceback (
      codes "boot"
      ∷ codes "Traceback (most recent call last):"
      ∷ codes "  File \"main.py\", line 3, in <module>"
      ∷ codes "OSError: 2"
      ∷ codes ">>>"
      ∷ [])
    ≡ some (codes "OSError: 2 (\"main.py\", line 3)")
unfolding parse_last_traceback behind_header same_bytes strip rstrip lstrip space diagnosis scan
    starts_with removesuffix
diagnosed = refl

silent : serial_feedback none ≡ codes "(serial output is empty - the firmware did not start)"
unfolding serial_feedback
silent = refl

number : decimal 1050 ≡ codes "1050"
unfolding decimal
number = refl

default_model :
    pick (λ _. some []) (λ _. none) none (codes "LLM_MODEL" ∷ []) (codes "m") ≡ codes "m"
unfolding pick pick_named
default_model = refl

-- A model that fails three times and then answers, with the calls of it and the runs counted.
abbrev World : Type 0
World = ℕ × ℕ

abbrev flaky : List Message → World → Reply × World
flaky ms (zero, r) = (other_error (codes "refused"), (1, r))
flaky ms (suc zero, r) = (http_error 503 (codes "busy"), (2, r))
flaky ms (suc (suc c), r) = (answer (codes "```\nx\n```"), (suc (suc c) + 1, r))

-- The first run fails its check, the next pass.
abbrev board : Bytes → World → TaskResult × World
board code (c, zero) =
    (record { passed = false; serial_log = none; error = none; error_kind = none_kind }, (c, 1))
board code (c, suc r) = (
  record { passed = true; serial_log = none; error = none; error_kind = none_kind },
  (c, suc r + 1),
)

abbrev silent_journal : Entry → World → World
silent_journal e w = w

abbrev blink : Bytes
blink = codes "blink"

abbrev two_rounds : AttemptResult
two_rounds = record {
  task = blink;
  attempt = 1;
  solved = true;
  iterations = 2;
  error = none;
  error_kind = none_kind;
}

solved_at_last :
    solve_attempt flaky board silent_journal blink [] 3 1 (0, 0) ≡ (finished two_rounds, (4, 2))
unfolding solve_attempt verdict loop asked ask or_retry is_permanent taken extract_code blocks
    block_at starts_with until_fence behind_line skip_language lower space begin classify
    final_error last_of behind_header breaks diagnosis parse_last_traceback removesuffix scan
    serial_feedback splitlines failed_check judged no_block find same_bytes decimal join_by lstrip
    rstrip strip
solved_at_last = refl

one_round : solve_attempt flaky board silent_journal blink [] 1 1 (0, 0) ≡ (
  finished record {
    task = blink;
    attempt = 1;
    solved = false;
    iterations = 1;
    error = some (codes "iteration limit (1) exhausted");
    error_kind = none_kind;
  },
  (3, 1),
)
unfolding solve_attempt verdict loop asked ask or_retry is_permanent taken extract_code blocks
    block_at starts_with until_fence behind_line skip_language lower space begin classify
    final_error last_of behind_header breaks diagnosis parse_last_traceback removesuffix scan
    serial_feedback splitlines failed_check judged no_block find same_bytes decimal join_by lstrip
    rstrip strip
one_round = refl

wrong_key :
    solve_attempt
      (λ _ w. (http_error 401 (codes "key"), w))
      board
      silent_journal
      blink
      []
      3
      1
      (0, 0)
    ≡ (exited 401, (0, 0))
unfolding solve_attempt verdict loop asked ask or_retry is_permanent
wrong_key = refl

flaky_asks : (ms : List Message) (w : World) → (flaky ms w).1.0 ≤ w.0 + 1
flaky_asks ms (zero, r) = omega arith
flaky_asks ms (suc zero, r) = omega arith
flaky_asks ms (suc (suc c), r) = omega arith

board_runs : (code : Bytes) (w : World) → (board code w).1.0 ≤ w.0 + 0
board_runs code (c, zero) = omega arith
board_runs code (c, suc r) = omega arith

solve-CampaignSpends_example :
    CampaignSpends
      (λ (w : World). w.0)
      18
      2
      3
      (solve flaky board silent_journal blink [] 3 (codes "m") false 2 (0, 0))
solve-CampaignSpends_example =
    solve-CampaignSpends flaky board silent_journal (λ w. w.0) 1 0 blink [] 3 (codes "m") false 2
      (0, 0) flaky_asks board_runs (λ e w. omega arith)

abbrev TwoRuns : World → Type 0
TwoRuns w = 2 ≤ w.1

abbrev SomeCall : ℕ → World → Type 0
SomeCall code w = 1 ≤ w.0

flaky_tells : (ms : List Message) (w : World) → ReplyTold TwoRuns SomeCall (flaky ms w)
flaky_tells ms (zero, r) = tt
flaky_tells ms (suc zero, r) = omega arith
flaky_tells ms (suc (suc c), r) = tt

board_passes :
    (code : Bytes) (w : World) → (board code w).0.passed ≡ true → TwoRuns (board code w).1
board_passes code (c, zero) e = cc e
board_passes code (c, suc r) e = omega arith

solve_attempt-Right_example :
    Right TwoRuns SomeCall (solve_attempt flaky board silent_journal blink [] 3 1 (0, 0))
solve_attempt-Right_example =
    solve_attempt-Right TwoRuns SomeCall flaky board silent_journal blink [] 3 1 (0, 0) flaky_tells
      board_passes

extract_code-fenced_example :
    extract_code (codes "So:\n" ++ (opening ++ (codes "x = 1 \n" ++ (fence ++ codes " Done."))))
    ≡ some (rstrip (codes "x = 1 \n") ++ 10 ∷ [])
unfolding space
extract_code-fenced_example =
    extract_code-fenced (codes "So:\n") (codes " Done.") (codes " = 1 \n") 120
      (refl, (refl, (refl, (refl, tt)))) (refl, (refl, (refl, (refl, (refl, (refl, (refl, tt)))))))
      (refl, (refl, (refl, (refl, (refl, (refl, tt)))))) refl
