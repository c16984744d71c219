-- ===== src/Runner/Env.antt =====
-- The .env file and the token: `load_env_file`, `find_env_file`, `resolve_token`, `_wsl_distro` and
-- `_plain_text` of src/ironbench/runner_common.py.
--
-- A variable that is set twice has the value of its last line. The lines of the file, read with
-- splitlines, come as a list; a file that is not there gives no lines.
use ironharness.Prelude.{
  ℕ, Bool, false, ◌&&◌, ◌||◌, Option, none, some, List, [], ◌∷◌, Bytes, length, drop, take, leb,
  ◌==◌, if◌then◌else◌,
}
use ironharness.Prelude.Search.{starts_with, same_bytes}
use ironharness.Prelude.Text.{codes, space, lstrip, strip}

-- [A-Za-z_]
unfoldable pub is_letter : ℕ → Bool
is_letter c = (leb 65 c && leb c 90) || (leb 97 c && leb c 122) || c == 95

-- [A-Za-z0-9_]
unfoldable pub is_word : ℕ → Bool
is_word c = is_letter c || (leb 48 c && leb c 57)

-- The longest text of such characters in front, and what stands behind it.
unfoldable pub span_word : Bytes → Bytes × Bytes
span_word [] = ([], [])
span_word (c ∷ cs) =
    let (word, rest) = span_word cs in if is_word c then (c ∷ word, rest) else ([], c ∷ cs)

-- \s*=\s*(.*)$
unfoldable pub behind_equals : Bytes → Option Bytes
behind_equals text = after (lstrip text)
  where
    after : Bytes → Option Bytes
    after [] = none
    after (c ∷ cs) = if c == 61 then some (lstrip cs) else none

abbrev pub assigned : Bytes → Option Bytes → Option (Bytes × Bytes)
assigned name none = none
assigned name (some value) = some (name, value)

-- ([A-Za-z_][A-Za-z0-9_]*)\s*=\s*(.*)$
unfoldable pub assignment : Bytes → Option (Bytes × Bytes)
assignment [] = none
assignment (c ∷ cs) =
    let (name, rest) = span_word cs in
    if is_letter c then assigned (c ∷ name) (behind_equals rest) else none

abbrev pub begins_space : Bytes → Bool
begins_space [] = false
begins_space (c ∷ cs) = space c

-- ^\$env:(...)$ and ^export\s+(...)$
unfoldable pub powershell : Bytes → Option (Bytes × Bytes)
powershell line = if starts_with (codes "$env:") line then assignment (drop 5 line) else none

unfoldable pub exported : Bytes → Option (Bytes × Bytes)
exported line =
    if starts_with (codes "export") line && begins_space (drop 6 line)
    then assignment (lstrip (drop 6 line))
    else none

abbrev pub first_some : Option (Bytes × Bytes) → Option (Bytes × Bytes) → Option (Bytes × Bytes)
first_some none other = other
first_some (some m) other = some m

unfoldable pub last_char : ℕ → Bytes → ℕ
last_char c [] = c
last_char c (d ∷ ds) = last_char d ds

-- The value without one pair of equal quotes around it.
unfoldable pub unquote : Bytes → Bytes
unquote (q ∷ c ∷ cs) =
    if (q == 39 || q == 34) && last_char c cs == q then take (length cs) (c ∷ cs) else q ∷ c ∷ cs
unquote text = text

abbrev pub cleaned : Option (Bytes × Bytes) → Option (Bytes × Bytes)
cleaned none = none
cleaned (some (name, value)) = some (name, unquote (strip value))

-- What a line sets.
unfoldable pub env_line : Bytes → Option (Bytes × Bytes)
env_line text =
    let line = strip text in
    if same_bytes line [] || starts_with (codes "#") line
    then none
    else cleaned (first_some (powershell line) (first_some (exported line) (assignment line)))

abbrev pub set_here : Bytes → Option (Bytes × Bytes) → Option Bytes
set_here name none = none
set_here name (some (key, value)) = if same_bytes key name then some value else none

abbrev pub later_or : Option Bytes → Option Bytes → Option Bytes
later_or none here = here
later_or (some value) here = some value

-- load_env_file(path).get(name)
unfoldable pub env_value : List Bytes → Bytes → Option Bytes
env_value [] name = none
env_value (line ∷ lines) name = later_or (env_value lines name) (set_here name (env_line line))

-- The first candidate that is a file.
unfoldable pub find_env_file : List (Option (List Bytes)) → Option (List Bytes)
find_env_file [] = none
find_env_file (none ∷ more) = find_env_file more
find_env_file (some lines ∷ more) = some lines

abbrev pub set_text : Option Bytes → Option Bytes
set_text (some (c ∷ cs)) = some (c ∷ cs)
set_text _ = none

abbrev pub or_in : Option (List Bytes) → Bytes → Option Bytes
or_in none name = none
or_in (some lines) name = env_value lines name

unfoldable pub resolve_token :
    (Bytes → Option Bytes) → List (Option (List Bytes)) → Option Bytes → Option Bytes
resolve_token environ files explicit =
    let name = codes "WOKWI_CLI_TOKEN" in
    later_or (set_text explicit)
      (later_or (set_text (environ name)) (or_in (find_env_file files) name))

-- The distro's name, or the ValueError.
unfoldable pub wsl_distro : (Bytes → Option Bytes) → Option Bytes
wsl_distro environ = set_text (stripped (environ (codes "IRONBENCH_RENODE_DISTRO")))
  where
    stripped : Option Bytes → Option Bytes
    stripped none = none
    stripped (some text) = some (strip text)

unfoldable pub char_in : ℕ → Bytes → Bool
char_in c [] = false
char_in c (d ∷ ds) = c == d || char_in c ds

unfoldable pub any_special : Bytes → Bool
any_special [] = false
any_special (c ∷ cs) = char_in c (codes "\\^$.|?*+()[]{}") || any_special cs

-- A pattern that is also a plain text.
unfoldable pub plain_text : Bytes → Option Bytes
plain_text pattern = if any_special pattern then none else some pattern
