-- ===== src/Runner/Runs.antt =====
-- The directories of the runs: `_new_run_dir` and `clean_runs` of src/ironbench/runner_common.py.
--
-- A task's directory is the list of its run-* directories in the order of the glob, each with its
-- mtime. The names that uuid draws are a list; the marker is written once a directory was made.
use ironharness.Prelude.{
  ℕ, zero, suc, ◌+◌, ◌≤◌, ◌≡◌, refl, ap, ◌∙◌, Bool, true, false, Option, none, some, List, [], ◌∷◌,
  ◌++◌, Bytes, length, take, drop, leb, if◌then◌else◌, if_ind, arith, length-take, take-append-drop,
  min, leb→le, leb→gt,
}
use ironharness.Prelude.Search.{same_bytes}

-- A directory of a run: its name and mtime.
abbrev pub RunDir : Type 0
RunDir = Bytes × ℕ

pub record OutDir : Type 0 where
  pub marked : Bool
  pub tasks : List (Bytes × List RunDir)

-- Newest first; equal ones stay in their order.
unfoldable pub insert_run : RunDir → List RunDir → List RunDir
insert_run r [] = r ∷ []
insert_run r (s ∷ runs) =
    let later = insert_run r runs in if leb s.1 r.1 then r ∷ s ∷ runs else s ∷ later

unfoldable pub newest_first : List RunDir → List RunDir
newest_first [] = []
newest_first (r ∷ runs) = insert_run r (newest_first runs)

-- One task: what stays, and how many were removed.
unfoldable pub clean_task : ℕ → List RunDir → List RunDir × ℕ
clean_task keep runs =
    let sorted = newest_first runs in (take keep sorted, length (drop keep sorted))

unfoldable pub clean_tasks : ℕ → List (Bytes × List RunDir) → List (Bytes × List RunDir) × ℕ
clean_tasks keep [] = ([], 0)
clean_tasks keep ((name, runs) ∷ more) =
    let (stay, n) = clean_task keep runs in
    let (rest, m) = clean_tasks keep more in ((name, stay) ∷ rest, n + m)

-- The out directory and the number removed; none is the refusal of a root without the marker. A
-- keep below zero, which is refused too, cannot be said here.
unfoldable pub clean_runs : ℕ → OutDir → Option (OutDir × ℕ)
clean_runs keep out =
    let (tasks, n) = clean_tasks keep out.tasks in
    if out.marked then some (record out { tasks = tasks }, n) else none

unfoldable pub taken_name : Bytes → List RunDir → Bool
taken_name name [] = false
taken_name name ((other, t) ∷ runs) =
    let rest = taken_name name runs in if same_bytes other name then true else rest

-- The draws, up to three; none is the OSError.
unfoldable pub new_run_dir : ℕ → List Bytes → List RunDir → Option Bytes
new_run_dir zero names runs = none
new_run_dir (suc tries) [] runs = none
new_run_dir (suc tries) (name ∷ names) runs =
    let again = new_run_dir tries names runs in if taken_name name runs then again else some name

-- No run is older than the first.
abbrev pub AtMost : ℕ → List RunDir → Type 0
AtMost t [] = Unit {0}
AtMost t (r ∷ runs) = (r.1 ≤ t) × AtMost t runs

abbrev pub Descending : List RunDir → Type 0
Descending [] = Unit {0}
Descending (r ∷ runs) = AtMost r.1 runs × Descending runs

-- Every run in a list is at least as new as all of another.
abbrev pub Newer : List RunDir → List RunDir → Type 0
Newer [] old = Unit {0}
Newer (r ∷ runs) old = AtMost r.1 old × Newer runs old

-- How many pass a test.
unfoldable pub count : (RunDir → Bool) → List RunDir → ℕ
count test [] = 0
count test (r ∷ runs) = (if test r then 1 else 0) + count test runs

count-append :
    (test : RunDir → Bool) (xs ys : List RunDir)
    → count test (xs ++ ys) ≡ count test xs + count test ys
unfolding count
count-append test [] ys = omega arith
count-append test (r ∷ xs) ys = omega (arith, count-append test xs ys)

AtMost-insert_run :
    (t : ℕ) (r : RunDir) (runs : List RunDir)
    → r.1 ≤ t
    → AtMost t runs
    → AtMost t (insert_run r runs)
unfolding insert_run
AtMost-insert_run t r [] le all = (le, tt)
AtMost-insert_run t r (s ∷ runs) le (here, all) =
    if_ind (AtMost t) (leb s.1 r.1) (λ _. (le, (here, all)))
      (λ _. (here, AtMost-insert_run t r runs le all))

AtMost-weaken : (t t' : ℕ) (runs : List RunDir) → t ≤ t' → AtMost t runs → AtMost t' runs
AtMost-weaken t t' [] le all = tt
AtMost-weaken t t' (s ∷ runs) le (here, all) =
    (omega (arith, here, le), AtMost-weaken t t' runs le all)

insert_run-Descending :
    (r : RunDir) (runs : List RunDir) → Descending runs → Descending (insert_run r runs)
unfolding insert_run
insert_run-Descending r [] d = (tt, tt)
insert_run-Descending r (s ∷ runs) (below, d) =
    if_ind Descending (leb s.1 r.1)
      (λ e. ((leb→le s.1 r.1 e, AtMost-weaken s.1 r.1 runs (leb→le s.1 r.1 e) below), (below, d)))
      (λ e. (
        AtMost-insert_run s.1 r runs (omega (arith, leb→gt s.1 r.1 e)) below,
        insert_run-Descending r runs d,
      ))

newest_first-Descending : (runs : List RunDir) → Descending (newest_first runs)
unfolding newest_first
newest_first-Descending [] = tt
newest_first-Descending (r ∷ runs) =
    insert_run-Descending r (newest_first runs) (newest_first-Descending runs)

count-insert_run :
    (test : RunDir → Bool) (r : RunDir) (runs : List RunDir)
    → count test (insert_run r runs) ≡ count test (r ∷ runs)
unfolding count insert_run
count-insert_run test r [] = refl
count-insert_run test r (s ∷ runs) =
    if_ind (λ (xs : List RunDir). count test xs ≡ count test (r ∷ s ∷ runs)) (leb s.1 r.1)
      (λ _. refl) (λ _. omega (arith, count-insert_run test r runs))

count-newest_first :
    (test : RunDir → Bool) (runs : List RunDir) → count test (newest_first runs) ≡ count test runs
unfolding count newest_first
count-newest_first test [] = refl
count-newest_first test (r ∷ runs) =
    omega (arith, count-insert_run test r (newest_first runs), count-newest_first test runs)

AtMost-drop : (t n : ℕ) (runs : List RunDir) → AtMost t runs → AtMost t (drop n runs)
AtMost-drop t zero runs all = all
AtMost-drop t (suc n) [] all = tt
AtMost-drop t (suc n) (r ∷ runs) all = AtMost-drop t n runs all.1

take-Newer : (n : ℕ) (runs : List RunDir) → Descending runs → Newer (take n runs) (drop n runs)
take-Newer zero runs d = tt
take-Newer (suc n) [] d = tt
take-Newer (suc n) (r ∷ runs) (below, d) = (AtMost-drop r.1 n runs below, take-Newer n runs d)

length-insert_run :
    (r : RunDir) (runs : List RunDir) → length (insert_run r runs) ≡ suc (length runs)
unfolding insert_run
length-insert_run r [] = refl
length-insert_run r (s ∷ runs) =
    if_ind (λ (xs : List RunDir). length xs ≡ suc (suc (length runs))) (leb s.1 r.1) (λ _. refl)
      (λ _. ap suc (length-insert_run r runs))

length-newest_first : (runs : List RunDir) → length (newest_first runs) ≡ length runs
unfolding newest_first
length-newest_first [] = refl
length-newest_first (r ∷ runs) =
    length-insert_run r (newest_first runs) ∙ ap suc (length-newest_first runs)

-- Of a task's runs, min keep n stay and the others are counted as removed; there is a list of the
-- removed ones of which none is newer than one that stays, and the two lists together are the runs
-- in another order.
pub clean_task-Newer :
    (keep : ℕ) (runs : List RunDir)
    → (length (clean_task keep runs).0 ≡ min keep (length runs))
      × ((removed : List RunDir) × ((length removed ≡ (clean_task keep runs).1)
            × (Newer (clean_task keep runs).0 removed
                × ((test : RunDir → Bool)
                    → count test ((clean_task keep runs).0 ++ removed) ≡ count test runs))))
unfolding clean_task
clean_task-Newer keep runs =
    let sorted = newest_first runs in
    (
      length-take keep sorted ∙ ap (λ (n : ℕ). min keep n) (length-newest_first runs),
      (
        drop keep sorted,
        (
          refl,
          (
            take-Newer keep sorted (newest_first-Descending runs),
            λ test. ap (count test) (take-append-drop keep sorted) ∙ count-newest_first test runs,
          ),
        ),
      ),
    )
