-- ===== src/Verify/Tests.antt =====
-- A wait for two bytes at concrete inputs.
use ironharness.Prelude.{◌≡◌, refl, inl, inr, true, none, some, List, [], ◌∷◌, arith}
use ironharness.Prelude.Search.{contains, find, starts_with}
use ironharness.Verify.{Round, returned, read_failed, expect, expect_read, write_and_expect}
use ironharness.Verify.Expect.{Ended, expect_read-Ended}

abbrev rounds : List Round
rounds =
    record { now = 0; chunk = some (9 ∷ 1 ∷ []) }
    ∷ record { now = 1; chunk = some (2 ∷ 3 ∷ []) }
    ∷ record { now = 8; chunk = some [] }
    ∷ []

echo_comes : write_and_expect true (1 ∷ 2 ∷ []) none 5 0 rounds ≡ returned (9 ∷ 1 ∷ 2 ∷ 3 ∷ [])
unfolding write_and_expect expect_read expect contains find starts_with
echo_comes = refl

-- A read that raises ends the wait, unless the text had come before.
read_raises : expect_read (7 ∷ []) 5 0 (record { now = 1; chunk = none } ∷ rounds) ≡ read_failed
unfolding expect_read expect contains find starts_with
read_raises = refl

expect_read-Ended_example : Ended (7 ∷ []) 5 rounds [] (expect_read (7 ∷ []) 5 0 rounds)
expect_read-Ended_example = expect_read-Ended 7 [] 5 0 rounds (inr (inr (inl (omega arith))))
