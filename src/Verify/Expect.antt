-- ===== src/Verify/Expect.antt =====
-- How a wait for a text ends.
use ironharness.Prelude.{
  ℕ, ◌+◌, ◌≤◌, ◌<◌, ◌≡◌, refl, Option, none, some, leb→le, if◌then◌else◌, ◌⊎◌, inl, inr, true,
  false, List, [], ◌∷◌, ◌++◌, Bytes, length, leb, ltb, leb→gt, ltb→lt, ltb→ge, if_ind, arith,
}
use ironharness.Prelude.Search.{contains}
use ironharness.Verify.{
  Round, Answer, returned, timed_out, overflowed, write_failed, read_failed, waiting,
  max_expect_buf, expect, expect_read,
}

-- The clock comes to the deadline in some round.
abbrev pub Reaches : ℕ → List Round → Type 0
Reaches deadline [] = ⊥
Reaches deadline (r ∷ rounds) = (deadline ≤ r.now) ⊎ Reaches deadline rounds

-- From these rounds to those, the chunks of the rounds in between make a buffer this text.
pub data Heard : List Round → List Round → Bytes → Bytes → Type 0 where
  so_far : {rounds : List Round} {buf : Bytes} → Heard rounds rounds buf buf
  more :
      {r : Round} {rounds rest : List Round} {buf text : Bytes} (chunk : Bytes)
      → r.chunk ≡ some chunk
      → Heard rounds rest (buf ++ chunk) text
      → Heard (r ∷ rounds) rest buf text

-- An end of the loop, with all that was read: the text has come, in a buffer within the bound; or
-- it has not and the clock is at the deadline; or the buffer is too long; or the text has not come,
-- the clock is before the deadline, and the read raises.
abbrev pub Ended : Bytes → ℕ → List Round → Bytes → Answer → Type 0
Ended expected deadline rounds buf (returned text) =
    (rest : List Round) × Heard rounds rest buf text
    × (contains expected text ≡ true)
    × (length text ≤ max_expect_buf)
Ended expected deadline rounds buf (timed_out text) =
    (r : Round) × (rest : List Round) × Heard rounds (r ∷ rest) buf text
    × (deadline ≤ r.now)
    × (contains expected text ≡ false)
    × (length text ≤ max_expect_buf)
Ended expected deadline rounds buf (overflowed text) =
    (rest : List Round) × Heard rounds rest buf text × (max_expect_buf < length text)
Ended expected deadline rounds buf read_failed =
    (text : Bytes) × (r : Round) × (rest : List Round) × Heard rounds (r ∷ rest) buf text
    × (r.chunk ≡ none)
    × (r.now < deadline)
    × (contains expected text ≡ false)
Ended expected deadline rounds buf write_failed = ⊥
Ended expected deadline rounds buf (waiting text) = ⊥

later-Ended :
    (expected : Bytes) (deadline : ℕ) (r : Round) (rounds : List Round) (buf chunk : Bytes)
    (a : Answer)
    → r.chunk ≡ some chunk
    → Ended expected deadline rounds (buf ++ chunk) a
    → Ended expected deadline (r ∷ rounds) buf a
later-Ended expected d r rounds buf chunk (returned text) e (rest, h, c, l) =
    (rest, more chunk e h, c, l)
later-Ended expected d r rounds buf chunk (timed_out text) e (q, rest, h, t, c, l) =
    (q, rest, more chunk e h, t, c, l)
later-Ended expected d r rounds buf chunk (overflowed text) e (rest, h, l) =
    (rest, more chunk e h, l)
later-Ended expected d r rounds buf chunk read_failed e (text, q, rest, h, n, t, c) =
    (text, q, rest, more chunk e h, n, t, c)
later-Ended expected d r rounds buf chunk write_failed e end' = end'
later-Ended expected d r rounds buf chunk (waiting text) e end' = end'

not_yet :
    (deadline : ℕ) (r : Round) (rounds : List Round)
    → leb deadline r.now ≡ false
    → Reaches deadline (r ∷ rounds)
    → Reaches deadline rounds
not_yet deadline r rounds t (inl e) = absurd (omega (arith, leb→gt deadline r.now t))
not_yet deadline r rounds t (inr reach) = reach

expect-Ended :
    (expected : Bytes) (deadline : ℕ) (rounds : List Round) (buf : Bytes)
    → length buf ≤ max_expect_buf
    → Reaches deadline rounds
    → Ended expected deadline rounds buf (expect expected deadline rounds buf)
unfolding expect
expect-Ended expected deadline [] buf l reach = absurd reach
expect-Ended expected deadline (r ∷ rounds) buf l reach =
    let E : Answer → Type 0 = Ended expected deadline (r ∷ rounds) buf in
    if_ind E (contains expected buf) (λ c. (r ∷ rounds, so_far, c, l))
      (λ c.
        if_ind E (leb deadline r.now) (λ t. (r, rounds, so_far, leb→le deadline r.now t, c, l))
          (λ t. reads c t r.chunk refl λ chunk l'.
            expect-Ended expected deadline rounds (buf ++ chunk) l'
              (not_yet deadline r rounds t reach)))
  where
    reads :
        contains expected buf ≡ false
        → leb deadline r.now ≡ false
        → (o : Option Bytes) → r.chunk ≡ o
        → ((chunk : Bytes)
            → length (buf ++ chunk) ≤ max_expect_buf
            → Ended expected deadline rounds
                (buf ++ chunk)
                (expect expected deadline rounds (buf ++ chunk)))
        → Ended expected deadline (r ∷ rounds) buf (elim o [
          | none ↦ read_failed
          | some chunk ↦
              if ltb max_expect_buf (length (buf ++ chunk))
              then overflowed (buf ++ chunk)
              else expect expected deadline rounds (buf ++ chunk)
        ])
    reads c t none e later = (buf, r, rounds, so_far, e, leb→gt deadline r.now t, c)
    reads c t (some chunk) e later =
        if_ind (Ended expected deadline (r ∷ rounds) buf)
          (ltb max_expect_buf (length (buf ++ chunk)))
          (λ o. (rounds, more chunk e so_far, ltb→lt _ _ o))
          (λ o. later-Ended expected deadline r rounds buf chunk _ e (later chunk (ltb→ge _ _ o)))

-- In a wait for a text that is not empty, once the clock comes to the deadline in some round, the
-- call has ended: with the text in what was read from the start; or without it, at a round in which
-- the clock is at the deadline; or with more read than the bound on the buffer; or without it,
-- before the deadline, at a round in which the read raises.
pub expect_read-Ended :
    (b : ℕ) (bs : Bytes) (timeout start : ℕ) (rounds : List Round)
    → Reaches (start + timeout) rounds
    → Ended (b ∷ bs) (start + timeout) rounds [] (expect_read (b ∷ bs) timeout start rounds)
unfolding expect_read
expect_read-Ended b bs timeout start rounds reach =
    expect-Ended (b ∷ bs) (start + timeout) rounds [] (omega arith) reach
