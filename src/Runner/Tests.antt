-- ===== src/Runner/Tests.antt =====
-- Runs of the definitions of src/ironbench/runner_common.py and runner_unix.py, and examples.
use ironharness.Prelude.{
  ℕ, ◌+◌, ◌-◌, ◌*◌, ◌≡◌, refl, ◌≤◌, ◌<◌, true, false, Option, none, some, List, [], ◌∷◌, ◌++◌,
  Bytes, length, arith,
}
use ironharness.Prelude.Text.{codes, split_by, lstrip, rstrip, space, strip}
use ironharness.Prelude.Search.{find, contains, same_bytes, starts_with}
use ironharness.Runner.Writer.{
  Event, write, take_next, delivered, pipe_died, close, run, new_writer,
}
use ironharness.Runner.Backlog.{Kept, run-Kept}
use ironharness.Runner.Answer.{
  Chunks, text_of, first_occurrence_stamp, first_occurrence_stamp-cases, anti_cheat, pre_printed,
  first_dumped, stamp_at,
}
use ironharness.Runner.Events.{
  check_events, check_events_realtime, paced_event, events_passed-Spread, Spread, stamps_of,
  chunk_stamps, tolerance, not_paced, check_event, in_period, last_word, line_stamps, paced,
  split_words,
}
use ironharness.Runner.Box.{
  box_appends, empty_box, marker, Consistent, box_appends-Consistent, box_append,
}
use ironharness.Runner.Env.{
  env_value, resolve_token, plain_text, any_special, assignment, behind_equals, char_in, env_line,
  exported, find_env_file, is_letter, is_word, last_char, powershell, span_word, unquote,
}

quoted :
    env_value (codes "# x" ∷ codes "export  KEY = 'a b' " ∷ codes "$env:OTHER=1" ∷ []) (codes "KEY")
    ≡ some (codes "a b")
unfolding env_value env_line same_bytes strip rstrip lstrip space starts_with powershell assignment
    is_letter behind_equals span_word is_word exported unquote last_char
quoted = refl

from_file :
    resolve_token (λ _. some []) (none ∷ some (codes "WOKWI_CLI_TOKEN=t" ∷ []) ∷ []) none
    ≡ some (codes "t")
unfolding resolve_token find_env_file env_value env_line same_bytes strip rstrip lstrip space
    starts_with powershell exported assignment is_letter behind_equals span_word is_word last_char
    unquote
from_file = refl

special : plain_text (codes "a.b") ≡ none
unfolding plain_text any_special char_in
special = refl

abbrev some_events : List Event
some_events =
    write (codes "one")
    ∷ write (codes "two")
    ∷ take_next
    ∷ delivered
    ∷ close
    ∷ take_next
    ∷ pipe_died
    ∷ []

run-Kept_example : Kept (run some_events new_writer []).0 (run some_events new_writer []).1
run-Kept_example = run-Kept some_events

-- The answer was printed at 3, the question is asked at 5.
abbrev old : Chunks
old = (3, codes "hi ok") ∷ []

abbrev new : Chunks
new = (7, codes " ok") ∷ []

first_occurrence_stamp-cases_example :
    (3 < length (text_of old)
      → first_occurrence_stamp (text_of (old ++ new)) (old ++ new) (codes "ok") (some 5) ≡ none)
    × (length (text_of old) ≤ 3
        → (t : ℕ) × ((first_occurrence_stamp
                (text_of (old ++ new))
                (old ++ new)
                (codes "ok")
                (some 5)
              ≡ some t)
            × (5 ≤ t)))
unfolding find text_of starts_with
first_occurrence_stamp-cases_example =
    first_occurrence_stamp-cases old new 111 (107 ∷ []) 5 3 (omega arith, tt) (omega arith, tt) refl

dumped :
    anti_cheat (record {
      text = text_of (old ++ new);
      chunks = old ++ new;
      eof = true;
      waited = (codes "ok", some 5) ∷ [];
      waits_done = 0;
      answers = codes "ok" ∷ [];
      writer_overflow = false;
    })
    ≡ some (pre_printed (codes "ok"))
unfolding anti_cheat first_dumped contains text_of starts_with first_occurrence_stamp stamp_at
dumped = refl

-- The end of a text in a line, and a number of up to three digits.
abbrev find_end : Bytes → Bytes → Option ℕ
find_end pattern line = elim (find pattern line) [
  | none ↦ none
  | some p ↦ some (p + length pattern)
]

abbrev small : Bytes → Option ℕ
small (a ∷ b ∷ c ∷ []) = some ((a - 48) * 100 + (b - 48) * 10 + (c - 48))
small _ = none

abbrev blinks : Bytes
blinks = codes "led 100\nled 600\n"

burst :
    check_events_realtime find_end small
      (split_by 10)
      ((9, blinks) ∷ [])
      (paced_event (codes "led") 2 400 600 ∷ [])
    ≡ not_paced (codes "led") ∷ []
unfolding check_events_realtime chunk_stamps line_stamps split_by find starts_with paced in_period
burst = refl

events_passed-Spread_example :
    (2 ≤ length (stamps_of find_end small (split_by 10) (codes "led") (split_by 10 blinks)))
    × (Spread 0
          (400, 600)
          (stamps_of find_end small (split_by 10) (codes "led") (split_by 10 blinks))
        × (2
              ≤ length (
                  chunk_stamps find_end small
                    (split_by 10)
                    (codes "led")
                    ((9, codes "led 100") ∷ (500, codes "led 600") ∷ []))
            → Spread tolerance
                (400, 600)
                (chunk_stamps find_end small
                  (split_by 10)
                  (codes "led")
                  ((9, codes "led 100") ∷ (500, codes "led 600") ∷ []))))
unfolding check_events check_event stamps_of split_by find starts_with last_word split_words space
    paced in_period check_events_realtime chunk_stamps line_stamps
events_passed-Spread_example =
    events_passed-Spread find_end small (split_by 10) blinks
      ((9, codes "led 100") ∷ (500, codes "led 600") ∷ []) (codes "led") 2 400 600 refl refl

-- The second chunk passes the cap, and what comes later is discarded.
flooded :
    let box = box_appends 4 ((1, codes "abc") ∷ (2, codes "de") ∷ (3, codes "f") ∷ []) empty_box in
    (box.dropped ≡ true) × (box.chunks ≡ (1, codes "abc") ∷ (2, marker 4) ∷ [])
unfolding box_appends box_append empty_box
flooded = (refl, refl)

box_appends-Consistent_example :
    Consistent 4
      ((1, codes "abc") ∷ (2, codes "de") ∷ [])
      (box_appends 4 ((1, codes "abc") ∷ (2, codes "de") ∷ []) empty_box)
box_appends-Consistent_example = box_appends-Consistent 4 ((1, codes "abc") ∷ (2, codes "de") ∷ [])
