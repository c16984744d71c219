-- ===== src/Verify.antt =====
-- src/io_core/verify.py: reading until an expected text has come.
--
-- A round of the loop is what the clock says in it and the chunk that the transport reads then, or
-- none where the read raises. The sleep after an empty chunk only lets time pass.
pub mod Expect
mod Tests
use ironharness.Prelude.{
  ℕ, ◌+◌, Bool, true, false, Option, none, some, List, [], ◌∷◌, ◌++◌, Bytes, length, leb, ltb,
  if◌then◌else◌,
}
use ironharness.Prelude.Search.{contains}

abbrev pub max_expect_buf : ℕ
max_expect_buf = 262144

pub record Round : Type 0 where
  pub now : ℕ
  pub chunk : Option Bytes

pub data Answer : Type 0 where
  returned : Bytes → Answer
  -- the two VerificationErrors, with the buffer
  timed_out : Bytes → Answer
  overflowed : Bytes → Answer
  -- what the write raises, and what a read raises
  write_failed read_failed : Answer
  -- the rounds end before the loop does
  waiting : Bytes → Answer

-- The loop from a buffer on.
unfoldable pub expect : Bytes → ℕ → List Round → Bytes → Answer
expect expected deadline [] buf = if contains expected buf then returned buf else waiting buf
expect expected deadline (r ∷ rounds) buf =
    if contains expected buf
    then returned buf
    else if leb deadline r.now
    then timed_out buf
    else elim r.chunk [
      | none ↦ read_failed
      | some chunk ↦
          let later = expect expected deadline rounds (buf ++ chunk) in
          if ltb max_expect_buf (length (buf ++ chunk)) then overflowed (buf ++ chunk) else later
    ]

unfoldable pub expect_read : Bytes → ℕ → ℕ → List Round → Answer
expect_read [] timeout start rounds = returned []
expect_read (b ∷ bs) timeout start rounds = expect (b ∷ bs) (start + timeout) rounds []

-- `written` is whether `transport.write` returned; the echo is expected where nothing else is.
unfoldable pub write_and_expect : Bool → Bytes → Option Bytes → ℕ → ℕ → List Round → Answer
write_and_expect false content expected timeout start rounds = write_failed
write_and_expect true content none timeout start rounds = expect_read content timeout start rounds
write_and_expect true content (some text) timeout start rounds =
    expect_read text timeout start rounds
