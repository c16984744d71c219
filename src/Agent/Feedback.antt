-- ===== src/Agent/Feedback.antt =====
-- What src/ironbench/agent.py tells the model of a run: `_serial_feedback` and
-- `_parse_last_traceback`. The log's lines are a parameter of the latter.
use ironharness.Prelude.{
  ℕ, ◌-◌, Bool, false, ◌&&◌, ◌||◌, Option, none, some, List, [], ◌∷◌, ◌++◌, Bytes, length, drop,
  take, leb, ◌==◌, if◌then◌else◌,
}
use ironharness.Prelude.Search.{starts_with, same_bytes}
use ironharness.Prelude.Text.{codes, strip, push, join_by}

-- The line breaks of str.splitlines; "\r\n" is one.
unfoldable pub breaks : ℕ → Bool
breaks c = (leb 10 c && leb c 13) || (leb 28 c && leb c 30) || c == 133 || c == 8232 || c == 8233

abbrev pub begins_line_feed : Bytes → Bool
begins_line_feed [] = false
begins_line_feed (c ∷ cs) = c == 10

-- text.splitlines(): no line behind the last break.
unfoldable pub splitlines : Bytes → List Bytes
splitlines [] = []
splitlines (c ∷ cs) =
    let rest = splitlines cs in
    if c == 13 && begins_line_feed cs then rest else if breaks c then [] ∷ rest else push c rest

abbrev pub header : Bytes
header = codes "Traceback (most recent call last):"

-- The lines behind the last header.
unfoldable pub behind_header : List Bytes → Option (List Bytes)
behind_header [] = none
behind_header (line ∷ lines) =
    let later = behind_header lines in
    let here : Option (List Bytes) = if same_bytes (strip line) header then some lines else none in
    elim later [ none ↦ here | some rest ↦ some rest ]

-- text.removesuffix(suffix)
unfoldable pub removesuffix : Bytes → Bytes → Bytes
removesuffix suffix text =
    let n = length text - length suffix in
    if leb (length suffix) (length text) && same_bytes (drop n text) suffix
    then take n text
    else text

-- The frame and the line of the exception behind a header.
unfoldable pub scan : Bytes → List Bytes → Bytes × Bytes
scan frame [] = (frame, [])
scan frame (line ∷ lines) =
    let text = strip line in
    let here = removesuffix (codes ", in <module>") (drop 5 text) in
    let next = scan (if same_bytes text [] then frame else here) lines in
    if same_bytes text [] || starts_with (codes "File ") text then next else (frame, text)

unfoldable pub diagnosis : Bytes × Bytes → Option Bytes
diagnosis (frame, []) = none
diagnosis ([], c ∷ cs) = some (c ∷ cs)
diagnosis (f ∷ fs, c ∷ cs) = some ((c ∷ cs) ++ (codes " (" ++ ((f ∷ fs) ++ codes ")")))

abbrev pub diagnosed : Option (List Bytes) → Option Bytes
diagnosed none = none
diagnosed (some lines) = diagnosis (scan [] lines)

unfoldable pub parse_last_traceback : List Bytes → Option Bytes
parse_last_traceback lines = diagnosed (behind_header lines)

abbrev pub joined_lines : List Bytes → Bytes
joined_lines [] = []
joined_lines (line ∷ lines) = join_by 10 line lines

abbrev pub with_diagnosis : Option Bytes → Bytes → Bytes
with_diagnosis none tail = tail
with_diagnosis (some parsed) tail =
    codes "DIAGNOSIS: " ++ (parsed ++ (10 ∷ 10 ∷ (codes "(last serial output):" ++ 10 ∷ tail)))

unfoldable pub serial_feedback : Option Bytes → Bytes
serial_feedback none = codes "(serial output is empty - the firmware did not start)"
serial_feedback (some text) =
    let lines = splitlines text in
    with_diagnosis (parse_last_traceback lines) (joined_lines (drop (length lines - 40) lines))
