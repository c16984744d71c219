-- ===== src/Agent/Code.antt =====
-- `extract_code` of src/ironbench/agent.py: the last fenced block of an answer.
use ironharness.Prelude.{
  ℕ, zero, suc, ◌+◌, ◌&&◌, ◌||◌, Option, none, some, List, [], ◌∷◌, ◌++◌, Bytes, length, drop, take,
  leb, ◌==◌, if◌then◌else◌, map,
}
use ironharness.Prelude.Search.{find, starts_with}
use ironharness.Prelude.Text.{codes, space, strip}

-- The simple case of a letter, as re.IGNORECASE compares the letters of the pattern.
unfoldable pub lower : ℕ → ℕ
lower c = if leb 65 c && leb c 90 then c + 32 else if c == 304 || c == 305 then 105 else c

abbrev pub fence : Bytes
fence = 96 ∷ 96 ∷ 96 ∷ []

-- (?:python|micropython)?
unfoldable pub skip_language : Bytes → Bytes
skip_language text =
    if starts_with (codes "python") (map lower (take 6 text))
    then drop 6 text
    else if starts_with (codes "micropython") (map lower (take 11 text))
    then drop 11 text
    else text

abbrev pub or_else : Option Bytes → Option Bytes → Option Bytes
or_else none other = other
or_else (some text) other = some text

-- \s*\n: what stands behind the last line feed of the white space in front.
unfoldable pub behind_line : Bytes → Option Bytes
behind_line [] = none
behind_line (c ∷ cs) =
    let deeper = behind_line cs in
    let here : Option Bytes = if c == 10 then some cs else none in
    if space c then or_else deeper here else none

abbrev pub cut : Bytes → Option ℕ → Option (Bytes × Bytes)
cut text none = none
cut text (some at) = some (take at text, drop (at + 3) text)

-- (.*?)``` : the block, and what stands behind it.
unfoldable pub until_fence : Option Bytes → Option (Bytes × Bytes)
until_fence none = none
until_fence (some text) = cut text (find fence text)

-- A match of CODE_FENCE at the front of a text.
unfoldable pub block_at : Bytes → Option (Bytes × Bytes)
block_at text =
    if starts_with fence text then until_fence (behind_line (skip_language (drop 3 text))) else none

abbrev pub found : Option (Bytes × Bytes) → List Bytes → (Bytes → List Bytes) → List Bytes
found none next later = next
found (some (block, rest)) next later = block ∷ later rest

-- CODE_FENCE.findall, on fuel: as much as the text has characters is enough.
unfoldable pub blocks : ℕ → Bytes → List Bytes
blocks zero text = []
blocks (suc fuel) [] = []
blocks (suc fuel) (c ∷ cs) = found (block_at (c ∷ cs)) (blocks fuel cs) (blocks fuel)

unfoldable pub last_of : Bytes → List Bytes → Bytes
last_of text [] = text
last_of text (next ∷ more) = last_of next more

abbrev pub with_line_feed : Bytes → Option Bytes
with_line_feed [] = none
with_line_feed (c ∷ cs) = some ((c ∷ cs) ++ 10 ∷ [])

abbrev pub last_block : List Bytes → Option Bytes
last_block [] = none
last_block (block ∷ more) = with_line_feed (strip (last_of block more))

unfoldable pub extract_code : Bytes → Option Bytes
extract_code response = last_block (blocks (length response) response)
