-- ===== src/Runner/DispatchTests.antt =====
-- Runs of the definitions of src/ironbench/runner.py and the directories of runner_common.py.
use ironharness.Tasks.Stimulus.{unanchored}
use ironharness.Tasks.Compat.{check_target_compat, findings, gather}
use ironharness.Prelude.{
  ℕ, ◌+◌, ◌≡◌, refl, Bool, true, false, none, some, List, [], ◌∷◌, ◌++◌, length, min,
}
use ironharness.Prelude.Integer.{pos}
use ironharness.Prelude.Text.{codes}
use ironharness.Prelude.Search.{same_bytes}
use ironharness.Agent.{none_kind}
use ironharness.Tasks.{Task, any, is_empty}
use ironharness.Runner.{TaskResult}
use ironharness.Runner.Runs.{
  clean_runs, clean_task, clean_task-Newer, Newer, count, new_run_dir, RunDir, clean_tasks,
  insert_run, newest_first, taken_name,
}
use ironharness.Runner.Dispatch.{Targets, run_task, run_task-gated, run_real_task, run_target}

abbrev three_runs : List RunDir
three_runs = (codes "a", 5) ∷ (codes "b", 9) ∷ (codes "c", 7) ∷ []

cleaned :
    clean_runs 1 (record { marked = true; tasks = (codes "t", three_runs) ∷ [] })
    ≡ some (record { marked = true; tasks = (codes "t", (codes "b", 9) ∷ []) ∷ [] }, 2)
unfolding clean_runs clean_tasks clean_task newest_first insert_run
cleaned = refl

drawn_again : new_run_dir 3 (codes "a" ∷ codes "d" ∷ []) three_runs ≡ some (codes "d")
unfolding new_run_dir taken_name same_bytes
drawn_again = refl

clean_task-Newer_example :
    (length (clean_task 1 three_runs).0 ≡ min 1 (length three_runs))
    × ((removed : List RunDir) × ((length removed ≡ (clean_task 1 three_runs).1)
          × (Newer (clean_task 1 three_runs).0 removed
              × ((test : RunDir → Bool)
                  → count test ((clean_task 1 three_runs).0 ++ removed) ≡ count test three_runs))))
clean_task-Newer_example = clean_task-Newer 1 three_runs

abbrev on_board : Task ℕ
on_board = record {
  name = codes "blink";
  description = [];
  scenario = none;
  entry = codes "main.py";
  timeout_sec = pos 30;
  expect = codes "ok" ∷ [];
  fail = [];
  stimulus = [];
  target = codes "real";
  renode = [];
  noise = [];
  plant = [];
  mqtt = [];
  shim = [];
  events = [];
  tags = [];
  level = none;
  notes = [];
  boot_expect = [];
  device_modules = [];
  api_hint = [];
}

abbrev passes : TaskResult
passes = record {
  task = codes "blink";
  passed = true;
  exit_code = none;
  serial_log = none;
  missed = [];
  hit_fail = [];
  error = none;
  error_kind = none_kind;
}

abbrev all_pass : Targets ℕ ℕ
all_pass = record {
  run_wokwi = λ task w. (passes, w);
  run_renode = λ task w. (passes, w);
  run_unix = λ task w. (passes, w);
  run_plant = λ task w. (passes, w);
  run_real = λ injected task w. (passes, w + 1);
}

allowed : (run_task all_pass (λ r w. w) (λ task ps. []) true false on_board 0).1 ≡ 1
unfolding run_task check_target_compat gather findings any same_bytes is_empty unanchored run_target
    run_real_task
allowed = refl

run_task-gated_example :
    run_task
      (record all_pass { run_real = λ injected task w. (passes, w + 7) })
      (λ r w. w)
      (λ task ps. [])
      false
      false
      on_board
      0
    ≡ run_task all_pass (λ r w. w) (λ task ps. []) false false on_board 0
run_task-gated_example =
    run_task-gated all_pass (λ r w. w) (λ task ps. []) (λ injected task w. (passes, w + 7)) on_board
      0
