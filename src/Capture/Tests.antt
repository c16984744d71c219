-- ===== src/Capture/Tests.antt =====
-- Runs of a monitor's window: a port that gives three bytes each time, in three rounds.
use ironharness.Prelude.{
  ℕ, ◌≤◌, ◌≡◌, refl, subst, Option, none, some, List, [], ◌∷◌, Bytes, length, take, length-take,
  arith, some_inj,
}
use ironharness.Prelude.Search.{contains, find, starts_with}
use ironharness.Capture.{
  Round, stopped, by_pattern, by_quiet, by_max_bytes, monitor_window, capture, take_in, seen, asked,
  received, is_quiet,
}
use ironharness.Capture.Pattern.{Searched, monitor_window-Searched}
use ironharness.Capture.Ending.{here, there, Ends, monitor_window-Ends}

abbrev round : ℕ → Option ℕ → Bytes → Round
round t waiting text = record {
  now = t;
  waiting = waiting;
  read = λ size. some (take size text);
  read_at = t;
}

abbrev rounds : List Round
rounds =
    round 10 (some 3) (97 ∷ 98 ∷ 99 ∷ [])
    ∷ round 11 none (100 ∷ 101 ∷ [])
    ∷ round 13 (some 0) []
    ∷ round 20 none []
    ∷ []

-- The pattern lies across the two chunks.
across :
    monitor_window 100 10 none (some (99 ∷ 100 ∷ [])) 10 rounds
    ≡ stopped by_pattern (97 ∷ 98 ∷ 99 ∷ 100 ∷ 101 ∷ [])
unfolding monitor_window capture take_in seen asked received is_quiet contains find starts_with
across = refl

silent :
    monitor_window 100 10 (some 2) none 10 rounds ≡ stopped by_quiet (97 ∷ 98 ∷ 99 ∷ 100 ∷ 101 ∷ [])
unfolding monitor_window capture take_in seen asked received is_quiet contains find starts_with
silent = refl

full : monitor_window 4 10 (some 2) none 10 rounds ≡ stopped by_max_bytes (97 ∷ 98 ∷ 99 ∷ 100 ∷ [])
unfolding monitor_window capture take_in seen asked received is_quiet contains find starts_with
full = refl

monitor_window-Searched_example :
    Searched (some (99 ∷ 100 ∷ [])) (monitor_window 100 10 none (some (99 ∷ 100 ∷ [])) 10 rounds)
monitor_window-Searched_example =
    monitor_window-Searched 100 10 none (some (99 ∷ 100 ∷ [])) 10 rounds λ e. cc e

taken_fits :
    (text : Bytes) (size : ℕ) (chunk : Bytes)
    → some (take size text) ≡ some chunk
    → length chunk ≤ size
taken_fits text size chunk e =
    subst (λ (c : Bytes). length c ≤ size) (some_inj e) (omega (arith, length-take size text))

monitor_window-Ends_example : Ends 4 (monitor_window 4 10 (some 2) none 10 rounds)
monitor_window-Ends_example =
    monitor_window-Ends 4 10 (some 2) none 10 rounds
      (taken_fits _, (taken_fits _, (taken_fits _, (taken_fits _, tt))))
      (there (there (there (here (omega arith)))))
