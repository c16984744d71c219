-- ===== src/Capture.antt =====
-- Session._monitor_window (src/io_core/session.py): reading a port until the first of four reasons
-- to stop.
--
-- A round of the loop is what the clock and the port say in it: the time, `in_waiting` (none where
-- there is no such attribute or asking raises), the answer of `read` by the size asked for (none
-- where it raises), and the clock after the read. The pauses only let time pass.
pub mod Pattern
pub mod Ending
mod Tests
use ironharness.Prelude.{
  ℕ, zero, suc, ◌+◌, ◌-◌, min, Bool, true, false, Option, none, some, List, [], ◌∷◌, ◌++◌, Bytes,
  length, drop, leb, if◌then◌else◌,
}
use ironharness.Prelude.Search.{contains}

pub record Round : Type 0 where
  pub now : ℕ
  pub waiting : Option ℕ
  pub read : ℕ → Option Bytes
  pub read_at : ℕ

pub record Window : Type 0 where
  pub max_bytes : ℕ
  pub deadline : ℕ
  pub quiet : Option ℕ
  pub needle : Option Bytes

pub data Reason : Type 0 where
  by_max_bytes by_max_seconds by_quiet by_pattern : Reason

pub data Ended : Type 0 where
  stopped : Reason → Bytes → Ended
  -- what the read raises
  failed : Ended
  -- the rounds end before the loop does
  running : Bytes → Ended

abbrev pub chunk_size : ℕ
chunk_size = 4096

unfoldable pub is_quiet : Option ℕ → ℕ → ℕ → Bool
is_quiet none now last_data = false
is_quiet (some seconds) now last_data = leb seconds (now - last_data)

-- The size that the round reads, none where it reads nothing.
unfoldable pub asked : Option ℕ → ℕ → Option ℕ
asked (some zero) remaining = none
asked (some (suc n)) remaining = some (min (min (suc n) remaining) chunk_size)
asked none remaining = some (min chunk_size remaining)

-- What the round reads: nothing if it asks for nothing.
unfoldable pub received : Option ℕ → Round → Option Bytes
received none r = some []
received (some size) r = r.read size

-- The search for the pattern, from the first place where it could reach into the new chunk.
unfoldable pub seen : Option Bytes → Bytes → Bytes → Bool
seen none buf chunk = false
seen (some needle) buf chunk =
    contains needle (drop (length buf + 1 - length needle) (buf ++ chunk))

-- The rest of a round, once it has read. `later` is the loop from a buffer and a time on.
unfoldable pub take_in :
    Option Bytes → Bytes → ℕ → Round → Option Bytes → (Bytes → ℕ → Ended) → Ended
take_in needle buf last_data r none later = failed
take_in needle buf last_data r (some []) later = later buf last_data
take_in needle buf last_data r (some (b ∷ bs)) later =
    let more = later (buf ++ b ∷ bs) r.read_at in
    if seen needle buf (b ∷ bs) then stopped by_pattern (buf ++ b ∷ bs) else more

unfoldable pub capture : Window → List Round → Bytes → ℕ → Ended
capture w [] buf last_data = running buf
capture w (r ∷ rounds) buf last_data =
    let rest =
      take_in w.needle buf last_data r (received (asked r.waiting (w.max_bytes - length buf)) r)
        (capture w rounds) in
    if leb w.max_bytes (length buf)
    then stopped by_max_bytes buf
    else if leb w.deadline r.now
    then stopped by_max_seconds buf
    else if is_quiet w.quiet r.now last_data
    then stopped by_quiet buf
    else rest

unfoldable pub monitor_window : ℕ → ℕ → Option ℕ → Option Bytes → ℕ → List Round → Ended
monitor_window max_bytes max_seconds quiet_seconds stop_pattern start rounds =
    capture
      (record {
        max_bytes = max_bytes;
        deadline = start + max_seconds;
        quiet = quiet_seconds;
        needle = stop_pattern;
      })
      rounds [] start
