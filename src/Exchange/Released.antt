-- ===== src/Exchange/Released.antt =====
-- What serial_put, serial_get and serial_monitor (src/io_core/session.py) leave of the name of the
-- connection in the registries of running work.
use ironharness.Prelude.{
  ℕ, ◌+◌, ◌≡◌, ap, ◌∙◌, ◌⊎◌, inl, inr, Bool, true, false, Option, none, some, List, Bytes, String,
  if_ind,
}
use ironharness.Prelude.Dict.{Dict, has, present, lookup-remove_self}
use ironharness.Session.{Session, Outcome, passed, raised, Error, check_open}
use ironharness.Session.Line.{end_transfer, end_monitor}
use ironharness.Capture.{Round, Reason, Ended, stopped, failed, running}
use ironharness.Capture.Ending.{Sized, Reaches, Ends, monitor_window-Ends}
use ironharness.Mprepl
use ironharness.Exchange.{
  Others, Answer, on, admitted, put_ends, serial_put, store_ends, get_ends, serial_get, MonitorArgs,
  Summary, args_fit, summarise, monitor_ends, serial_monitor,
}
use ironharness.Exchange.Kept.{
  Kept, note-Kept, on-Kept, fail_as-Kept, return_as-Kept, Gated, put-Gated, get-Gated,
  monitor-Gated,
}

-- What a registry says of the name, if it does not depend on more than the two registries.
module _ (busy : Session → Bool) (same : (s s' : Session) → Kept s s' → busy s' ≡ busy s) where
  abbrev Freed {ℓ} : {A : Type ℓ} → Answer A × Session → Type 0
  Freed p = busy p.1 ≡ false

  on-Freed {ℓ} :
      {A : Type ℓ} (s : Session) (p : Outcome × Session) (next : Session → Answer A × Session)
      → Gated s p
      → busy s ≡ false
      → ((s' : Session) → Freed (next s'))
      → Freed (on p next)
  unfolding on Gated
  on-Freed s (passed, s') next g idle rest = rest s'
  on-Freed s (raised e, s') next (inl p) idle rest = cc p
  on-Freed s (raised e, s') next (inr k) idle rest = same s s' k ∙ idle

  passed-Freed {ℓ} :
      {A : Type ℓ} (o : Outcome) (s : Session) (next : Session → Answer A × Session)
      → busy s ≡ false
      → Freed (next s)
      → Freed (on (o, s) next)
  unfolding on
  passed-Freed passed s next idle rest = rest
  passed-Freed (raised e) s next idle rest = idle

  admitted-Freed {ℓ} :
      {A : Type ℓ} (enabled : Bool) (next : Session → Answer A × Session) (s : Session)
      → busy s ≡ false
      → Freed (next s)
      → Freed (admitted enabled next s)
  unfolding admitted
  admitted-Freed true next s idle rest = passed-Freed (check_open s) s _ idle rest
  admitted-Freed {A} false next s idle rest =
      passed-Freed (check_open s) s _ idle (same s _ (fail_as-Kept A _ _ _ s) ∙ idle)

still_free :
    (name : String) {d d' : Dict (Unit {0})} → has name d ≡ false → d' ≡ d → has name d' ≡ false
still_free name idle e = ap (has name) e ∙ idle

freed_transfer : (name : String) (s : Session) → has name (end_transfer name s).transfers ≡ false
unfolding end_transfer
freed_transfer name s = ap present (lookup-remove_self name s.transfers)

freed_monitor : (name : String) (s : Session) → has name (end_monitor name s).monitors ≡ false
unfolding end_monitor
freed_monitor name s = ap present (lookup-remove_self name s.monitors)

module _ (name : String) where
  abbrev transferring : Session → Bool
  transferring s = has name s.transfers

  abbrev monitoring : Session → Bool
  monitoring s = has name s.monitors

  transferring_same : (s s' : Session) → Kept s s' → transferring s' ≡ transferring s
  transferring_same s s' k = ap (has name) k.0

  monitoring_same : (s s' : Session) → Kept s s' → monitoring s' ≡ monitoring s
  monitoring_same s s' k = ap (has name) k.1

  -- The steps of other threads between two locked blocks start none on the name.
  abbrev StartsNone : (Session → Bool) → (Session → Session) → Type 0
  StartsNone busy step = (s : Session) → busy s ≡ false → busy (step s) ≡ false

  put_ends-Freed :
      (others : Others) (r : Mprepl.Result ℕ) (s : Session)
      → StartsNone transferring others.after_release
      → has name (put_ends others name r s).1.transfers ≡ false
  unfolding put_ends
  put_ends-Freed others (Mprepl.ok n) s after =
      still_free name (after _ (freed_transfer name s)) (return_as-Kept _ _ n _).0
  put_ends-Freed others (Mprepl.err e) s after = freed_transfer name _

  store_ends-Freed :
      (others : Others) (stored : ℕ ⊎ Error) (s : Session)
      → StartsNone transferring others.after_release
      → has name (store_ends others name stored s).1.transfers ≡ false
  unfolding store_ends
  store_ends-Freed others (inl n) s after =
      still_free name (after _ (freed_transfer name s)) (return_as-Kept _ _ n _).0
  store_ends-Freed others (inr e) s after = freed_transfer name _

  get_ends-Freed :
      (others : Others) (r : Mprepl.Result Bytes) (stored : Bytes → ℕ ⊎ Error) (s : Session)
      → StartsNone transferring others.after_release
      → has name (get_ends others name r stored s).1.transfers ≡ false
  unfolding get_ends
  get_ends-Freed others (Mprepl.ok text) stored s after =
      store_ends-Freed others (stored text) s after
  get_ends-Freed others (Mprepl.err e) stored s after = freed_transfer name _

  serial_put-Freed :
      (enabled : Bool) (source : Option Bytes) (exchanged : Bytes → Mprepl.Result ℕ)
      (others : Others) (s : Session)
      → StartsNone transferring others.before_gate
      → StartsNone transferring others.after_release
      → has name s.transfers ≡ false
      → has name (serial_put enabled source exchanged others name s).1.transfers ≡ false
  unfolding serial_put
  serial_put-Freed enabled none exchanged others s before after idle =
      admitted-Freed transferring transferring_same enabled _ s idle
        (still_free name (before s idle) (fail_as-Kept ℕ _ _ _ (others.before_gate s)).0)
  serial_put-Freed enabled (some text) exchanged others s before after idle =
      admitted-Freed transferring transferring_same enabled _ s idle (
        on-Freed transferring transferring_same (others.before_gate s) _ _
          (put-Gated name (others.before_gate s)) (before s idle)
          λ s'. put_ends-Freed others (exchanged text) (others.meanwhile s') after)

  serial_get-Freed :
      (enabled : Bool) (exchanged : Mprepl.Result Bytes) (stored : Bytes → ℕ ⊎ Error)
      (others : Others) (s : Session)
      → StartsNone transferring others.before_gate
      → StartsNone transferring others.after_release
      → has name s.transfers ≡ false
      → has name (serial_get enabled exchanged stored others name s).1.transfers ≡ false
  unfolding serial_get
  serial_get-Freed enabled exchanged stored others s before after idle =
      admitted-Freed transferring transferring_same enabled _ s idle (
        on-Freed transferring transferring_same (others.before_gate s) _ _
          (get-Gated name (others.before_gate s)) (before s idle)
          λ s'. get_ends-Freed others exchanged stored (others.meanwhile s') after)

  -- serial_put and serial_get: where no transfer runs on the name at the start, none runs on it at
  -- the end, whether the call is refused, the transfer or the sandbox fails or all is well, and
  -- whatever other threads do between the gate and the release; this is so if other threads start
  -- no transfer on the name in the call's time before its gate and after its release.
  pub serial_transfer-Freed :
      (enabled : Bool) (source : Option Bytes) (put_answer : Bytes → Mprepl.Result ℕ)
      (get_answer : Mprepl.Result Bytes) (stored : Bytes → ℕ ⊎ Error) (others : Others)
      (s : Session)
      → ((s' : Session)
          → has name s'.transfers ≡ false
          → has name (others.before_gate s').transfers ≡ false)
      → ((s' : Session)
          → has name s'.transfers ≡ false
          → has name (others.after_release s').transfers ≡ false)
      → has name s.transfers ≡ false
      → (has name (serial_put enabled source put_answer others name s).1.transfers ≡ false)
        × (has name (serial_get enabled get_answer stored others name s).1.transfers ≡ false)
  serial_transfer-Freed enabled source put_answer get_answer stored others s before after idle = (
    serial_put-Freed enabled source put_answer others s before after idle,
    serial_get-Freed enabled get_answer stored others s before after idle,
  )

  summarise-Freed :
      (path : Option Bytes) (dumped : Bool) (why : Reason) (text : Bytes) (s : Session)
      → has name s.monitors ≡ false
      → has name (summarise path dumped name why text s).1.monitors ≡ false
  unfolding summarise
  summarise-Freed none dumped why text s idle = still_free name idle (return_as-Kept _ _ _ s).1
  summarise-Freed (some path) true why text s idle = still_free name idle (return_as-Kept _ _ _ s).1
  summarise-Freed (some path) false why text s idle =
      still_free name idle
        (on-Kept s _ _ (note-Kept _ _ s)
          λ s' k. let k' = return_as-Kept _ _ _ s' in (k'.0 ∙ k.0, k'.1 ∙ k.1)).1

  monitor_ends-Freed :
      (others : Others) (path : Option Bytes) (dumped : Bool) (limit : ℕ) (e : Ended) (s : Session)
      → StartsNone monitoring others.after_release
      → Ends limit e
      → has name (monitor_ends others path dumped name e s).1.monitors ≡ false
  unfolding monitor_ends
  monitor_ends-Freed others path dumped limit (stopped why text) s after over =
      summarise-Freed path dumped why text _ (after _ (freed_monitor name s))
  monitor_ends-Freed others path dumped limit failed s after over = freed_monitor name _
  monitor_ends-Freed others path dumped limit (running text) s after over = elim over [ ]

  -- serial_monitor: where no monitor runs on the name at the start, none runs on it at the end,
  -- whether the call is refused, the port raises, the dump fails or all is well, and whatever other
  -- threads do between the gate and the release; this is so if other threads start no monitor on
  -- the name in the call's time before its gate and after its release, the port reads no more than
  -- it is asked for, and the clock reaches the end of the window.
  pub serial_monitor-Freed :
      (args : MonitorArgs) (enabled : Bool) (start : ℕ) (rounds : List Round) (dumped : Bool)
      (others : Others) (s : Session)
      → ((s' : Session)
          → has name s'.monitors ≡ false
          → has name (others.before_gate s').monitors ≡ false)
      → ((s' : Session)
          → has name s'.monitors ≡ false
          → has name (others.after_release s').monitors ≡ false)
      → Sized rounds
      → Reaches (start + args.max_seconds) rounds
      → has name s.monitors ≡ false
      → has name (serial_monitor args enabled start rounds dumped others name s).1.monitors ≡ false
  unfolding serial_monitor
  serial_monitor-Freed args enabled start rounds dumped others s before after sized reaches idle =
      if_ind (λ (p : Answer Summary × Session). has name p.1.monitors ≡ false) (args_fit args)
        (λ _. admitted-Freed monitoring monitoring_same enabled _ s idle (
          on-Freed monitoring monitoring_same (others.before_gate s) _ _
            (monitor-Gated name (others.before_gate s)) (before s idle)
            λ s'.
              monitor_ends-Freed others args.dump_path dumped args.max_bytes _ (others.meanwhile s')
                after
                (monitor_window-Ends args.max_bytes args.max_seconds args.quiet_seconds
                  args.stop_pattern start rounds sized reaches)))
        (λ _. still_free name idle (fail_as-Kept Summary _ _ _ s).1)
