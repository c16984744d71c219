-- ===== src/Sandbox/Tests.antt =====
-- The sandbox at concrete inputs: two files at most, four bytes in all.
use ironharness.Prelude.{◌≡◌, refl, true, false, some, [], ◌∷◌, arith}
use ironharness.Prelude.Dict.{lookup}
use ironharness.Sandbox.{
  FileSandbox, raised, quota_exceeded, writes, stops_after, used_bytes, used_files, size_of,
  over_quota, write_at, write_to, write_file,
}
use ironharness.Sandbox.Quota.{Within, write, delete, calls, calls-Within}

abbrev small : FileSandbox
small = record { files = ("a", 1 ∷ 2 ∷ 3 ∷ []) ∷ []; max_bytes = 4; max_files = 2 }

too_much : (write_file some writes false "b" (7 ∷ 8 ∷ []) small).0 ≡ raised quota_exceeded
unfolding write_file write_to write_at over_quota used_bytes used_files size_of lookup
too_much = refl

small-Within : Within small
unfolding used_bytes used_files
small-Within = record { bytes = omega arith; files = omega arith }

calls-Within_example : Within (
    calls some
      (write writes true "a" (9 ∷ [])
        ∷ write (stops_after 1) false "b" (7 ∷ 8 ∷ [])
        ∷ delete "a"
        ∷ [])
      small)
calls-Within_example =
    calls-Within some
      (write writes true "a" (9 ∷ [])
        ∷ write (stops_after 1) false "b" (7 ∷ 8 ∷ [])
        ∷ delete "a"
        ∷ [])
      small small-Within
