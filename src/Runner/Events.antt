-- ===== src/Runner/Events.antt =====
-- `_check_events` and `_check_events_realtime` of src/ironbench/runner_unix.py: the pace of events.
--
-- Stamps are whole milliseconds. The search of a pattern in a line (the end of its match), `float`
-- of a text and splitlines are parameters.
use ironharness.Prelude.{
  ℕ, ◌+◌, ◌≤◌, ◌≡◌, refl, sym, ◌∙◌, append-nil, ge→ltb, Bool, true, false, ◌&&◌, Option, none, some,
  List, [], ◌∷◌, ◌++◌, Bytes, length, drop, leb, ltb, if◌then◌else◌, arith, Bool-cases, inl, inr,
  leb→le, ltb→ge, if_true, if_false,
}
use ironharness.Prelude.Text.{space, push}

pub record Event : Type 0 where
  pub pattern : Bytes
  pub count_min : ℕ
  pub period_ms : Option (ℕ × ℕ)

pub data Missed : Type 0 where
  too_few : Bytes → ℕ → ℕ → Missed
  off_period : Bytes → Missed
  not_paced : Bytes → Missed

-- EVENT_STAMP_TOLERANCE_SEC, in milliseconds
abbrev pub tolerance : ℕ
tolerance = 150

-- text.split()
unfoldable pub split_words : Bytes → List Bytes
split_words [] = []
split_words (c ∷ cs) =
    let rest = split_words cs in
    if space c then rest else if starts cs then (c ∷ []) ∷ rest else push c rest
  where
    starts : Bytes → Bool
    starts [] = true
    starts (d ∷ ds) = space d

unfoldable pub last_word : List Bytes → Option Bytes
last_word [] = none
last_word (word ∷ words) =
    let later = last_word words in elim later [ none ↦ some word | some text ↦ some text ]

abbrev pub cons_some : Option ℕ → List ℕ → List ℕ
cons_some none stamps = stamps
cons_some (some t) stamps = t ∷ stamps

-- lo <= b - a <= hi, widened by some slack on both sides
unfoldable pub in_period : ℕ → ℕ × ℕ → ℕ → ℕ → Bool
in_period slack (lo, hi) a b = leb (a + lo) (b + slack) && leb b (a + hi + slack)

-- Every two stamps in a row are in the period.
unfoldable pub paced : ℕ → ℕ × ℕ → ℕ → List ℕ → Bool
paced slack period a [] = true
paced slack period a (b ∷ stamps) =
    let rest = paced slack period b stamps in in_period slack period a b && rest

abbrev pub all_paced : ℕ → ℕ × ℕ → List ℕ → Bool
all_paced slack period [] = true
all_paced slack period (a ∷ stamps) = paced slack period a stamps

abbrev pub report : Bool → Missed → List Missed
report true missed = []
report false missed = missed ∷ []

abbrev pub check_period : Bytes → Option (ℕ × ℕ) → List ℕ → List Missed
check_period pattern none stamps = []
check_period pattern (some period) stamps = report (all_paced 0 period stamps) (off_period pattern)

abbrev pub check_pace : Event → Option (ℕ × ℕ) → List ℕ → List Missed
check_pace ev none stamps = []
check_pace ev (some period) stamps =
    if ltb (length stamps) ev.count_min
    then []
    else report (all_paced tolerance period stamps) (not_paced ev.pattern)

module _ (search : Bytes → Bytes → Option ℕ) (float : Bytes → Option ℕ)
    (splitlines : Bytes → List Bytes) where
  abbrev pub stamp_behind : Bytes → Option ℕ → Option ℕ
  stamp_behind line none = none
  stamp_behind line (some at_end) = elim (last_word (split_words (drop at_end line))) [
    | none ↦ none
    | some word ↦ float word
  ]

  -- The numbers at the end of the lines that match.
  unfoldable pub stamps_of : Bytes → List Bytes → List ℕ
  stamps_of pattern [] = []
  stamps_of pattern (line ∷ lines) =
      cons_some (stamp_behind line (search pattern line)) (stamps_of pattern lines)

  unfoldable pub check_event : List Bytes → Event → List Missed
  check_event lines ev =
      let stamps = stamps_of ev.pattern lines in
      if ltb (length stamps) ev.count_min
      then too_few ev.pattern (length stamps) ev.count_min ∷ []
      else check_period ev.pattern ev.period_ms stamps

  unfoldable pub check_events : Bytes → List Event → List Missed
  check_events text [] = []
  check_events text (ev ∷ evs) = check_event (splitlines text) ev ++ check_events text evs

  abbrev pub matches : Bytes → Bytes → Bool
  matches pattern line = elim (search pattern line) [ none ↦ false | some at_end ↦ true ]

  -- The ingestion stamp of a chunk for each of its lines that match.
  unfoldable pub line_stamps : Bytes → ℕ → List Bytes → List ℕ
  line_stamps pattern t [] = []
  line_stamps pattern t (line ∷ lines) =
      let rest = line_stamps pattern t lines in if matches pattern line then t ∷ rest else rest

  unfoldable pub chunk_stamps : Bytes → List (ℕ × Bytes) → List ℕ
  chunk_stamps pattern [] = []
  chunk_stamps pattern ((t, chunk) ∷ chunks) =
      line_stamps pattern t (splitlines chunk) ++ chunk_stamps pattern chunks

  unfoldable pub check_events_realtime : List (ℕ × Bytes) → List Event → List Missed
  check_events_realtime chunks [] = []
  check_events_realtime chunks (ev ∷ evs) =
      check_pace ev ev.period_ms (chunk_stamps ev.pattern chunks)
      ++ check_events_realtime chunks evs

both : (a b : Bool) → a && b ≡ true → (a ≡ true) × (b ≡ true)
both true b e = (refl, e)
both false b e = cc e

-- From each stamp to the next: lo to hi, up to some slack either way.
abbrev pub Intervals : ℕ → ℕ × ℕ → ℕ → List ℕ → Type 0
Intervals slack (lo, hi) a [] = Unit {0}
Intervals slack (lo, hi) a (b ∷ stamps) =
    (a + lo ≤ b + slack) × ((b ≤ a + (hi + slack)) × Intervals slack (lo, hi) b stamps)

paced-Intervals :
    (slack lo hi a : ℕ) (stamps : List ℕ)
    → paced slack (lo, hi) a stamps ≡ true
    → Intervals slack (lo, hi) a stamps
unfolding paced in_period
paced-Intervals slack lo hi a [] e = tt
paced-Intervals slack lo hi a (b ∷ stamps) e =
    let (here, later) = both (in_period slack (lo, hi) a b) (paced slack (lo, hi) b stamps) e in
    let (low, high) = both (leb (a + lo) (b + slack)) _ here in
    (
      leb→le (a + lo) (b + slack) low,
      (omega (arith, leb→le b (a + hi + slack) high), paced-Intervals slack lo hi b stamps later),
    )

-- The stamps of an event that passed.
abbrev pub Spread : ℕ → ℕ × ℕ → List ℕ → Type 0
Spread slack (lo, hi) [] = Unit {0}
Spread slack (lo, hi) (a ∷ stamps) = Intervals slack (lo, hi) a stamps

all_paced-Spread :
    (slack lo hi : ℕ) (stamps : List ℕ)
    → all_paced slack (lo, hi) stamps ≡ true
    → Spread slack (lo, hi) stamps
all_paced-Spread slack lo hi [] e = tt
all_paced-Spread slack lo hi (a ∷ stamps) e = paced-Intervals slack lo hi a stamps e

-- Nothing was reported.
report-passed : (b : Bool) (missed : Missed) → report b missed ≡ [] → b ≡ true
report-passed true missed e = refl
report-passed false missed e = cc e

abbrev pub paced_event : Bytes → ℕ → ℕ → ℕ → Event
paced_event pattern n lo hi = record { pattern = pattern; count_min = n; period_ms = some (lo, hi) }

-- Enough, and all in the period.
enough_and_paced :
    (slack lo hi n : ℕ) (few : Missed) (off : Missed) (stamps : List ℕ)
    → (if ltb (length stamps) n then few ∷ [] else report (all_paced slack (lo, hi) stamps) off)
      ≡ []
    → (n ≤ length stamps) × Spread slack (lo, hi) stamps
enough_and_paced slack lo hi n few off stamps e = elim (Bool-cases (ltb (length stamps) n)) [
  | inl short ↦ cc (if_true (few ∷ []) (report (all_paced slack (lo, hi) stamps) off) short, e)
  | inr fits ↦ (
    ltb→ge (length stamps) n fits,
    all_paced-Spread slack lo hi stamps
        (report-passed _ off (sym (if_false (few ∷ []) _ fits) ∙ e)),
  )
]

-- If both checks of an event with a period pass, then the stamps that its lines carry are as many as
-- demanded and each is lo to hi after the one before it; and the ingestion stamps of its lines
-- have such intervals too, within the tolerance, unless these are too few.
pub events_passed-Spread :
    (search : Bytes → Bytes → Option ℕ) (float : Bytes → Option ℕ) (splitlines : Bytes → List Bytes)
    (text : Bytes) (chunks : List (ℕ × Bytes)) (pattern : Bytes) (n lo hi : ℕ)
    → check_events search float splitlines text (paced_event pattern n lo hi ∷ []) ≡ []
    → check_events_realtime search float splitlines chunks (paced_event pattern n lo hi ∷ []) ≡ []
    → (n ≤ length (stamps_of search float splitlines pattern (splitlines text)))
      × (Spread 0 (lo, hi) (stamps_of search float splitlines pattern (splitlines text))
          × (n ≤ length (chunk_stamps search float splitlines pattern chunks)
              → Spread tolerance (lo, hi) (chunk_stamps search float splitlines pattern chunks)))
unfolding check_events check_event check_events_realtime
events_passed-Spread search float splitlines text chunks pattern n lo hi e e' =
    let stamps = stamps_of search float splitlines pattern (splitlines text) in
    let (enough, spread) =
      enough_and_paced 0 lo hi n (too_few pattern (length stamps) n) (off_period pattern) stamps
        (sym (append-nil _) ∙ e) in
    (
      enough,
      (
        spread,
        λ many.
            all_paced-Spread tolerance lo hi (chunk_stamps search float splitlines pattern chunks) (
              report-passed _ (not_paced pattern)
                (sym (if_false [] _ (ge→ltb _ n many)) ∙ (sym (append-nil _) ∙ e'))),
      ),
    )
