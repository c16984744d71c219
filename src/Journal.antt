-- ===== src/Journal.antt =====
-- src/io_core/journal.py: the files of the journal, their rotation, and reading them back.
--
-- A function that the source runs under the sidecar lock is one function here, so the writes of any
-- number of processes are a sequence of `write`. The file system is `Disk`: its files are the live
-- journal, at 0, and the part `.i` at each i from 1 on. JSON, the test for a blank line and the
-- clock are parameters.
pub mod Rotation
pub mod History
pub mod Memory
pub mod Reading
pub mod Entries
pub mod Calls
pub mod Numbers
mod Tests
use ironharness.Prelude.{
  ℕ, zero, suc, ◌+◌, ◌-◌, Bool, true, false, not, ◌||◌, Option, none, some, List, [], ◌∷◌, ◌++◌,
  Bytes, length, String, ltb, ◌==◌, if◌then◌else◌,
}
use ironharness.Prelude.Dict.{Dict, same, lookup, has, insert}

-- The files, by their index.
abbrev pub Disk : Type 0
Disk = ℕ → Option Bytes

abbrev pub is_some {ℓ} : {A : Type ℓ} → Option A → Bool
is_some none = false
is_some (some _) = true

unfoldable pub set_file : ℕ → Option Bytes → Disk → Disk
set_file i file d j = if j == i then file else d j

-- (path.i).replace(path.j)
unfoldable pub replace : ℕ → ℕ → Disk → Disk
replace i j d = set_file i none (set_file j (d i) d)

-- There is no part `.0`.
unfoldable pub part_exists : ℕ → Disk → Bool
part_exists zero d = false
part_exists (suc i) d = is_some (d (suc i))

-- One round of the loop, for the part `.(i + 1)`.
unfoldable pub shift_round : ℕ → Disk → Disk
shift_round i d = if part_exists (suc i) d then replace (suc i) (suc (suc i)) d else d

-- for i in range(n, 0, -1)
unfoldable pub shift_parts : ℕ → Disk → Disk
shift_parts zero d = d
shift_parts (suc i) d = shift_parts i (shift_round i d)

unfoldable pub rotate : ℕ → Disk → Disk
rotate max_files d =
    let d' = if part_exists max_files d then set_file max_files none d else d in
    replace 0 1 (shift_parts (max_files - 1) d')

-- `_rotate_if_full`, with the text of the live file.
unfoldable pub rotate_at : ℕ → ℕ → Option Bytes → Disk → Disk
rotate_at max_bytes max_files none d = d
rotate_at max_bytes max_files (some text) d =
    if ltb (length text) max_bytes then d else rotate max_files d

unfoldable pub rotate_if_full : ℕ → ℕ → Disk → Disk
rotate_if_full max_bytes max_files d = rotate_at max_bytes max_files (d 0) d

abbrev pub content : Option Bytes → Bytes
content none = []
content (some text) = text

-- self._path.open("a"), and the write
unfoldable pub append_text : Bytes → Disk → Disk
append_text text d = set_file 0 (some (content (d 0) ++ text)) d

unfoldable pub write : ℕ → ℕ → Bytes → Disk → Disk
write max_bytes max_files text d = append_text text (rotate_if_full max_bytes max_files d)

-- The older files, and behind them this one, if it is there.
unfoldable pub behind : List Bytes → Option Bytes → List Bytes
behind files none = []
behind files (some file) = files ++ file ∷ []

-- The parts from `.i` on, the oldest first; the loop of `chain_files`, which ends at the first part
-- that is not there. More fuel than there are parts is enough.
unfoldable pub parts_from : ℕ → ℕ → Disk → List Bytes
parts_from zero i d = []
parts_from (suc fuel) i d = behind (parts_from fuel (suc i) d) (d i)

unfoldable pub with_live : List Bytes → Option Bytes → List Bytes
with_live files none = files
with_live files (some live) = files ++ live ∷ []

-- `chain_files`, with the texts of the files.
unfoldable pub chain_files : ℕ → Disk → List Bytes
chain_files fuel d = with_live (parts_from fuel 1 d) (d 0)

abbrev pub newline : ℕ
newline = 10

abbrev pub extend_first : ℕ → List Bytes → List Bytes
extend_first c [] = (c ∷ []) ∷ []
extend_first c (line ∷ lines) = (c ∷ line) ∷ lines

-- The lines of a text without their ends; what stands behind the last end is a line if it is not
-- empty.
unfoldable pub lines_of : Bytes → List Bytes
lines_of [] = []
lines_of (c ∷ text) =
    let lines = lines_of text in if c == newline then [] ∷ lines else extend_first c lines

-- The JSON library, its values, and `not line.strip()`.
pub record Json : Type 1 where
  pub Value : Type 0
  pub number : ℕ → Value
  pub text : String → Value
  pub texts : List String → Value
  pub dumps : Dict Value → Bytes
  -- none where the line is not JSON, or not an object
  pub loads : Bytes → Option (Dict Value)
  pub blank : Bytes → Bool

-- kind in RESERVED_KEYS
unfoldable pub reserved : String → Bool
reserved k = same k "ts" || same k "seq" || same k "actor" || same k "kind"

pub data Result : Type 0 where
  returned : Result
  -- ValueError of a closed journal
  journal_closed : Result
  os_error : Result

pub record JsonlJournal : Type 0 where
  pub actor : String
  pub seq : ℕ
  pub closed : Bool
  pub max_bytes : ℕ
  pub max_files : ℕ

-- A new writer. The empty live file that the probe of the constructor leaves, where there is none,
-- is not created: in the chain it reads as a missing one does.
abbrev pub fresh_journal : String → ℕ → ℕ → JsonlJournal
fresh_journal actor max_bytes max_files = record {
  actor = actor;
  seq = 0;
  closed = false;
  max_bytes = max_bytes;
  max_files = max_files;
}

module _ (json : Json) where
  open json use {Value, number, text, texts, dumps, loads, blank}

  abbrev pub Event : Type 0
  Event = Dict Value

  -- The items whose keys are reserved, and the others.
  unfoldable pub conflicts : Event → Event
  conflicts [] = []
  conflicts ((k, v) ∷ items) =
      let rest = conflicts items in if reserved k then (k, v) ∷ rest else rest

  unfoldable pub payload : Event → Event
  payload [] = []
  payload ((k, v) ∷ items) = let rest = payload items in if reserved k then rest else (k, v) ∷ rest

  -- rec.update(items)
  unfoldable pub update : Event → Event → Event
  update rec [] = rec
  update rec ((k, v) ∷ items) = update (insert k v rec) items

  -- sorted(conflicts)
  unfoldable pub sorted_keys : Event → List String
  sorted_keys found = pick "actor" (pick "kind" (pick "seq" (pick "ts" [])))
    where
      pick : String → List String → List String
      pick k rest = if has k found then k ∷ rest else rest

  unfoldable pub service : Value → ℕ → String → String → Event
  service ts seq actor kind =
      ("ts", ts) ∷ ("seq", number seq) ∷ ("actor", text actor) ∷ ("kind", text kind) ∷ []

  unfoldable pub entry : Value → ℕ → String → String → Event → Event
  entry ts seq actor kind items = update (service ts seq actor kind) (payload items)

  unfoldable pub conflict_entry : Value → ℕ → String → String → Event → Event
  conflict_entry ts seq actor kind items =
      update (service ts (suc seq) actor "journal_key_conflict")
        (("requested_kind", text kind) ∷ ("keys", texts (sorted_keys (conflicts items))) ∷ [])

  unfoldable pub line : Event → Bytes
  line event = dumps event ++ newline ∷ []

  abbrev pub is_empty : Event → Bool
  is_empty [] = true
  is_empty (_ ∷ _) = false

  -- The entries that one call makes.
  unfoldable pub entries : Value → Value → ℕ → String → String → Event → List Event
  entries ts ts' seq actor kind items =
      entry ts seq actor kind items
      ∷ (if is_empty (conflicts items) then [] else conflict_entry ts' seq actor kind items ∷ [])

  unfoldable pub print : List Event → Bytes
  print [] = []
  print (event ∷ events) = line event ++ print events

  -- `__call__`. `works` is whether the file opens and takes the text.
  unfoldable pub call :
      Value → Value → Bool → String → Event → JsonlJournal → Disk → Result × JsonlJournal × Disk
  call ts ts' works kind items j d =
      let n = suc j.seq in
      let rotated = rotate_if_full j.max_bytes j.max_files d in
      let conflict = if is_empty (conflicts items) then 0 else 1 in
      if j.closed
      then (journal_closed, j, d)
      else if works
      then (
        returned,
        record j { seq = n + conflict },
        append_text (print (entries ts ts' n j.actor kind items)) rotated,
      )
      else (os_error, record j { seq = n }, rotated)

  -- `close`
  unfoldable pub close : JsonlJournal → JsonlJournal
  close j = record j { closed = true }

  -- none is JournalCorrupt.
  unfoldable pub cons_event : Option Event → Option (List Event) → Option (List Event)
  cons_event none rest = none
  cons_event (some event) none = none
  cons_event (some event) (some events) = some (event ∷ events)

  -- The loop over the lines of a file.
  unfoldable pub read_lines : List Bytes → Option (List Event)
  read_lines [] = some []
  read_lines (l ∷ ls) =
      let rest = read_lines ls in if blank l then rest else cons_event (loads l) rest

  -- `read_events` of a file's text.
  unfoldable pub read_text : Bytes → Option (List Event)
  read_text text = read_lines (lines_of text)

  unfoldable pub append_events : Option (List Event) → Option (List Event) → Option (List Event)
  append_events none rest = none
  append_events (some events) none = none
  append_events (some events) (some more) = some (events ++ more)

  unfoldable pub read_files : List Bytes → Option (List Event)
  read_files [] = some []
  read_files (file ∷ files) = append_events (read_text file) (read_files files)

  -- `read_events_chain`
  unfoldable pub read_events_chain : ℕ → Disk → Option (List Event)
  read_events_chain fuel d = read_files (chain_files fuel d)
