-- ===== src/Exchange.antt =====
-- serial_put, serial_get and serial_monitor of src/io_core/session.py, whole: the gates of the
-- session, the work on the connection and what is journaled of it.
--
-- The work is an argument, since between the gate and the release no lock is held: what the file
-- transfer answers (Mprepl), what the sandbox answers (Sandbox) and what the window has captured
-- (Capture). What they journal under their own kinds is left out. What other threads do to the
-- session at the four places of a call where it holds no lock is an argument too (Others); their
-- steps between `_check_open` and `_check_kind`, and between two entries after the release, are
-- taken together with those beside them.
pub mod Kept
pub mod Released
mod Tests
use ironharness.Prelude.{
  ℕ, ◌+◌, Bool, true, false, Option, none, some, List, [], ◌∷◌, ◌++◌, Bytes, length, String, leb,
  ltb, ◌&&◌, not, ◌⊎◌, inl, inr, if◌then◌else◌,
}
use ironharness.Session.{
  Session, Outcome, passed, raised, Error, value_error, runtime_error, policy_violation, os_error,
  transport_closed, refuse, note, check_open,
}
use ironharness.Session.Line.{put, get, monitor, gate, end_transfer, end_monitor}
use ironharness.Capture.{
  Round, Reason, by_max_bytes, Ended, stopped, failed, running, monitor_window,
}
use ironharness.Mprepl

-- What other threads do to the session during a call.
pub record Others : Type 0 where
  -- between `_check_open` and the gate
  pub before_gate : Session → Session
  -- between the gate and the end of the work
  pub meanwhile : Session → Session
  -- between the entry of a failure and the release
  pub before_release : Session → Session
  -- between the release and the entry of a success
  pub after_release : Session → Session

-- What a call gives: a value, or what it raises.
pub data Answer {ℓ} (A : Type ℓ) : Type ℓ where
  returned : A → Answer A
  raises : Error → Answer A
  -- the window of a monitor is not over when the rounds end
  waiting : Answer A

-- The call goes on only if the step has passed.
unfoldable pub on {ℓ} :
    {A : Type ℓ} → Outcome × Session → (Session → Answer A × Session) → Answer A × Session
on (passed, s) next = next s
on (raised e, s) next = (raises e, s)

-- An entry for a failure, behind which the failure is raised again; a closed journal raises itself.
unfoldable pub fail_as {ℓ} : {A : Type ℓ} → String → String → Error → Session → Answer A × Session
fail_as kind name e s = on (refuse kind name e s) λ s'. (raises e, s')

-- `_check_open`, then `_check_kind("serial")`; `enabled` is the kinds policy.
unfoldable pub admitted {ℓ} :
    {A : Type ℓ} → Bool → (Session → Answer A × Session) → Session → Answer A × Session
admitted enabled next s =
    on (check_open s, s)
      λ s'. if enabled then next s' else fail_as "policy_violation" "" policy_violation s'

-- An entry for a success, before the value is returned.
unfoldable pub return_as {ℓ} : {A : Type ℓ} → String → String → A → Session → Answer A × Session
return_as kind name a s = on (note kind name s) λ s'. (returned a, s')

-- What a call raises for an error of the file transfer.
unfoldable pub raised_by : Mprepl.Error → Error
raised_by Mprepl.timeout = os_error
raised_by Mprepl.io_error = os_error
raised_by (Mprepl.board_error text) = runtime_error
raised_by Mprepl.value_error = value_error
raised_by Mprepl.unfinished = os_error

-- The end of serial_put: the name is free again before the success is journaled, and behind the
-- entry of a failure.
unfoldable pub put_ends : Others → String → Mprepl.Result ℕ → Session → Answer ℕ × Session
put_ends others name (Mprepl.ok n) s =
    return_as "serial_put" name n (others.after_release (end_transfer name s))
put_ends others name (Mprepl.err e) s =
    let (a, s') = fail_as "serial_put_failed" name (raised_by e) s in
    (a, end_transfer name (others.before_release s'))

-- `source` is what the sandbox reads, `exchanged` the answer of the transfer.
unfoldable pub serial_put :
    Bool → Option Bytes → (Bytes → Mprepl.Result ℕ) → Others → String → Session → Answer ℕ × Session
serial_put enabled none exchanged others name s =
    admitted enabled (λ s1. fail_as "serial_put_failed" name os_error (others.before_gate s1)) s
serial_put enabled (some text) exchanged others name s =
    admitted enabled
      (λ s1.
        on (gate put name (others.before_gate s1))
          λ s2. put_ends others name (exchanged text) (others.meanwhile s2))
      s

-- The end of serial_get: what the sandbox makes of the data is `stored`, the number of bytes or an
-- error.
unfoldable pub store_ends : Others → String → ℕ ⊎ Error → Session → Answer ℕ × Session
store_ends others name (inl n) s =
    return_as "serial_get" name n (others.after_release (end_transfer name s))
store_ends others name (inr e) s =
    let (a, s') = fail_as "serial_get_failed" name e s in
    (a, end_transfer name (others.before_release s'))

unfoldable pub get_ends :
    Others → String → Mprepl.Result Bytes → (Bytes → ℕ ⊎ Error) → Session → Answer ℕ × Session
get_ends others name (Mprepl.err e) stored s =
    let (a, s') = fail_as "serial_get_failed" name (raised_by e) s in
    (a, end_transfer name (others.before_release s'))
get_ends others name (Mprepl.ok text) stored s = store_ends others name (stored text) s

unfoldable pub serial_get :
    Bool
    → Mprepl.Result Bytes
    → (Bytes → ℕ ⊎ Error)
    → Others
    → String
    → Session
    → Answer ℕ × Session
serial_get enabled exchanged stored others name s =
    admitted enabled
      (λ s1.
        on (gate get name (others.before_gate s1))
          λ s2. get_ends others name exchanged stored (others.meanwhile s2))
      s

pub record MonitorArgs : Type 0 where
  pub max_bytes : ℕ
  pub max_seconds : ℕ
  pub quiet_seconds : Option ℕ
  pub stop_pattern : Option Bytes
  pub dump_path : Option Bytes

pub record Summary : Type 0 where
  pub captured : Bytes
  pub stop_reason : Reason
  pub truncated : Bool
  pub dump : Option Bytes
  pub dump_error : Bool

unfoldable pub seconds_fit : Option ℕ → Bool
seconds_fit none = true
seconds_fit (some seconds) = ltb 0 seconds && leb seconds 3600

unfoldable pub is_empty : Option Bytes → Bool
is_empty none = false
is_empty (some []) = true
is_empty (some (b ∷ bs)) = false

-- The arguments in the order of their tests.
unfoldable pub args_fit : MonitorArgs → Bool
args_fit args =
    leb 1 args.max_bytes
    && leb args.max_bytes 1048576
    && seconds_fit (some args.max_seconds)
    && seconds_fit args.quiet_seconds
    && not (is_empty args.stop_pattern)
    && not (is_empty args.dump_path)

abbrev pub is_full : Reason → Bool
is_full by_max_bytes = true
is_full _ = false

-- The dump and the summary, once the name is free again. `dumped` is whether the sandbox took the
-- dump.
unfoldable pub summarise :
    Option Bytes → Bool → String → Reason → Bytes → Session → Answer Summary × Session
summarise path dumped name why text s = closing path dumped
  where
    summary : Option Bytes → Bool → Summary
    summary dump dump_error = record {
      captured = text;
      stop_reason = why;
      truncated = is_full why;
      dump = dump;
      dump_error = dump_error;
    }

    closing : Option Bytes → Bool → Answer Summary × Session
    closing none dumped = return_as "serial_monitor" name (summary none false) s
    closing (some path) true = return_as "serial_monitor" name (summary (some path) false) s
    closing (some path) false =
        on (note "monitor_dump_failed" name s)
          λ s'. return_as "serial_monitor" name (summary none true) s'

-- A window that raises is journaled before the name is free again.
unfoldable pub monitor_ends :
    Others → Option Bytes → Bool → String → Ended → Session → Answer Summary × Session
monitor_ends others path dumped name (stopped why text) s =
    summarise path dumped name why text (others.after_release (end_monitor name s))
monitor_ends others path dumped name failed s =
    let (a, s') = fail_as "monitor_failed" name os_error s in
    (a, end_monitor name (others.before_release s'))
monitor_ends others path dumped name (running text) s = (waiting, s)

unfoldable pub serial_monitor :
    MonitorArgs
    → Bool
    → ℕ
    → List Round
    → Bool
    → Others
    → String
    → Session
    → Answer Summary × Session
serial_monitor args enabled start rounds dumped others name s =
    if args_fit args
    then admitted enabled
        (λ s1. on (gate monitor name (others.before_gate s1)) λ s2.
          monitor_ends others args.dump_path dumped name
            (monitor_window args.max_bytes args.max_seconds args.quiet_seconds args.stop_pattern
              start rounds)
            (others.meanwhile s2))
        s
    else fail_as "monitor_refused" name value_error s
