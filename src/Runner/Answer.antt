-- ===== src/Runner/Answer.antt =====
-- Whether an answer was printed before it was asked for: `first_occurrence_stamp` of
-- src/ironbench/runner_common.py, and the verdicts of `_run_unix` of src/ironbench/runner_unix.py.
use ironharness.Prelude.{
  ℕ, zero, suc, ◌+◌, ◌≤◌, ◌<◌, ◌≡◌, refl, sym, ap, ◌∙◌, Bool, true, false, ◌&&◌, Option, none, some,
  List, [], ◌∷◌, ◌++◌, Bytes, length, leb, ltb, if◌then◌else◌, arith, append_assoc, length-append,
  Bool-cases, inl, inr, if_true, if_false, ge→ltb, ltb→ge, le→leb, gt→leb,
}
use ironharness.Prelude.Search.{find, contains, find-split}

-- Chunks with their ingestion stamps.
abbrev pub Chunks : Type 0
Chunks = List (ℕ × Bytes)

unfoldable pub text_of : Chunks → Bytes
text_of [] = []
text_of ((t, chunk) ∷ chunks) = chunk ++ text_of chunks

-- The stamp of the first chunk behind which a position is passed.
unfoldable pub stamp_at : ℕ → ℕ → Chunks → Option ℕ
stamp_at pos seen [] = none
stamp_at pos seen ((t, chunk) ∷ chunks) =
    let seen' = seen + length chunk in
    let rest = stamp_at pos seen' chunks in if ltb pos seen' then some t else rest

abbrev pub not_before : Option ℕ → Option ℕ → Option ℕ
not_before (some hit) (some since) = if leb since hit then some hit else none
not_before _ _ = none

abbrev pub stamped : Option ℕ → Chunks → Option ℕ → Option ℕ
stamped none chunks since = none
stamped (some pos) chunks since = not_before (stamp_at pos 0 chunks) since

unfoldable pub first_occurrence_stamp : Bytes → Chunks → Bytes → Option ℕ → Option ℕ
first_occurrence_stamp text chunks needle since = stamped (find needle text) chunks since

-- What the run of a program came to, and what is said of it.
pub data Verdict : Type 0 where
  pre_printed : Bytes → Verdict
  zero_waits stimulus_not_delivered : Verdict

abbrev pub is_none : Option ℕ → Bool
is_none none = true
is_none (some t) = false

-- The first needle that was waited for, is in the log, and is no answer.
unfoldable pub first_dumped : Bytes → Chunks → List (Bytes × Option ℕ) → Option Verdict
first_dumped text chunks [] = none
first_dumped text chunks ((needle, since) ∷ waited) =
    let rest = first_dumped text chunks waited in
    if contains needle text && is_none (first_occurrence_stamp text chunks needle since)
    then some (pre_printed needle)
    else rest

-- The first wait-serial answer of the stimulus that is in the log.
unfoldable pub first_printed : Bytes → List Bytes → Verdict
first_printed text [] = zero_waits
first_printed text (needle ∷ needles) =
    let rest = first_printed text needles in
    if contains needle text then pre_printed needle else rest

abbrev pub or_else : Option Verdict → Option Verdict → Option Verdict
or_else none later = later
or_else (some v) later = some v

abbrev pub some_needle : List Bytes → Bool
some_needle [] = false
some_needle (needle ∷ needles) = true

-- The settled end of a run: the log and its chunks, whether the output ended, the waits in the order
-- they were reached with the trigger's stamp, how many were credited, all answers of the stimulus,
-- and whether the writer gave up.
pub record Settled : Type 0 where
  pub text : Bytes
  pub chunks : Chunks
  pub eof : Bool
  pub waited : List (Bytes × Option ℕ)
  pub waits_done : ℕ
  pub answers : List Bytes
  pub writer_overflow : Bool

abbrev pub no_waits : ℕ → Bool
no_waits zero = true
no_waits (suc n) = false

unfoldable pub anti_cheat : Settled → Option Verdict
anti_cheat s =
    let exited_early = s.eof && (no_waits s.waits_done && some_needle s.answers) in
    or_else (first_dumped s.text s.chunks s.waited) (
      or_else (if exited_early then some (first_printed s.text s.answers) else none)
        (if s.writer_overflow then some stimulus_not_delivered else none))

-- Every chunk came before a time.
abbrev pub AllBefore : ℕ → Chunks → Type 0
AllBefore since [] = Unit {0}
AllBefore since ((t, chunk) ∷ chunks) = (t < since) × AllBefore since chunks

text_of-append : (old new : Chunks) → text_of (old ++ new) ≡ text_of old ++ text_of new
unfolding text_of
text_of-append [] new = refl
text_of-append ((t, chunk) ∷ old) new =
    ap (λ (x : Bytes). chunk ++ x) (text_of-append old new)
    ∙ sym (append_assoc chunk (text_of old) (text_of new))

-- Every chunk came at a time or behind it.
abbrev pub AllFrom : ℕ → Chunks → Type 0
AllFrom since [] = Unit {0}
AllFrom since ((t, chunk) ∷ chunks) = (since ≤ t) × AllFrom since chunks

-- A position inside the old chunks has the stamp of one of them.
stamp_at-old :
    (since pos seen : ℕ) (old new : Chunks)
    → AllBefore since old
    → seen ≤ pos
    → pos < seen + length (text_of old)
    → not_before (stamp_at pos seen (old ++ new)) (some since) ≡ none
unfolding stamp_at text_of
stamp_at-old since pos seen [] new before le lt = absurd (omega (arith, le, lt))
stamp_at-old since pos seen ((t, chunk) ∷ old) new (earlier, before) le lt =
    elim (Bool-cases (ltb pos (seen + length chunk))) [
      | inl e ↦
          ap (λ (o : Option ℕ). not_before o (some since)) (if_true (some t) _ e)
          ∙ if_false (some t) none (gt→leb since t earlier)
      | inr e ↦
          ap (λ (o : Option ℕ). not_before o (some since)) (if_false (some t) _ e)
          ∙ stamp_at-old since pos (seen + length chunk) old new before (ltb→ge pos _ e)
              (omega (arith, lt, length-append chunk (text_of old)))
    ]

-- A position behind the old chunks has the stamp of a new one.
stamp_at-new :
    (since pos seen : ℕ) (chunks : Chunks)
    → AllFrom since chunks
    → seen ≤ pos
    → pos < seen + length (text_of chunks)
    → (t : ℕ) × ((stamp_at pos seen chunks ≡ some t) × (since ≤ t))
unfolding stamp_at text_of
stamp_at-new since pos seen [] from le lt = absurd (omega (arith, le, lt))
stamp_at-new since pos seen ((t, chunk) ∷ chunks) (at, from) le lt =
    elim (Bool-cases (ltb pos (seen + length chunk))) [
      | inl e ↦ (t, (if_true (some t) _ e, at))
      | inr e ↦
          let (t', (is, later)) =
            stamp_at-new since pos (seen + length chunk) chunks from (ltb→ge pos _ e)
              (omega (arith, lt, length-append chunk (text_of chunks))) in
          (t', (if_false (some t) _ e ∙ is, later))
    ]

stamp_at-behind :
    (pos seen : ℕ) (old new : Chunks)
    → seen + length (text_of old) ≤ pos
    → stamp_at pos seen (old ++ new) ≡ stamp_at pos (seen + length (text_of old)) new
unfolding stamp_at text_of
stamp_at-behind pos seen [] new le = ap (λ (n : ℕ). stamp_at pos n new) (omega arith)
stamp_at-behind pos seen ((t, chunk) ∷ old) new le =
    if_false (some t) _ (ge→ltb pos _ (omega (arith, le, length-append chunk (text_of old))))
    ∙ (stamp_at-behind pos (seen + length chunk) old new
          (omega (arith, le, length-append chunk (text_of old)))
        ∙ ap (λ (n : ℕ). stamp_at pos n new) (omega (arith, length-append chunk (text_of old))))

-- If the chunks up to a trigger came before it and the later ones at it or behind it, and the log
-- holds a needle that is not empty: the needle is credited with no stamp if its first occurrence
-- begins in the chunks before the trigger, and with a stamp at the trigger or behind it otherwise.
pub first_occurrence_stamp-cases :
    (old new : Chunks) (b : ℕ) (bs : Bytes) (since pos : ℕ)
    → AllBefore since old
    → AllFrom since new
    → find (b ∷ bs) (text_of (old ++ new)) ≡ some pos
    → (pos < length (text_of old)
        → first_occurrence_stamp (text_of (old ++ new)) (old ++ new) (b ∷ bs) (some since) ≡ none)
      × (length (text_of old) ≤ pos
          → (t : ℕ) × ((first_occurrence_stamp
                  (text_of (old ++ new))
                  (old ++ new)
                  (b ∷ bs)
                  (some since)
                ≡ some t)
              × (since ≤ t)))
unfolding first_occurrence_stamp
first_occurrence_stamp-cases old new b bs since pos before from found = (
  λ early. at_pos ∙ stamp_at-old since pos 0 old new before (omega arith) (omega (arith, early)),
  λ late.
      let (t, (is, later)) =
        stamp_at-new since pos (0 + length (text_of old)) new from (omega (arith, late)) (
          omega (
            arith,
            (find-split (b ∷ bs) (text_of (old ++ new)) pos found).1,
            ap (λ (x : Bytes). length x) (text_of-append old new),
            length-append (text_of old) (text_of new),
          )) in
      (
        t,
        (
          at_pos
              ∙ (ap (λ (o : Option ℕ). not_before o (some since))
                    (stamp_at-behind pos 0 old new (omega (arith, late)) ∙ is)
                  ∙ if_true (some t) none (le→leb since t later)),
          later,
        ),
      ),
)
  where
    at_pos :
        stamped (find (b ∷ bs) (text_of (old ++ new))) (old ++ new) (some since)
        ≡ not_before (stamp_at pos 0 (old ++ new)) (some since)
    at_pos = ap (λ (o : Option ℕ). stamped o (old ++ new) (some since)) found
