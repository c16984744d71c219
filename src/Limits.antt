-- ===== src/Limits.antt =====
-- src/io_core/limits.py: the rate limiter, the idle deadline, and the transports that they wrap.
--
-- Times are whole ticks and come in as arguments, one for each call of the injected clock. An
-- operation of the wrapped transport is a function from its state `S` to an outcome and a new
-- state; it may raise. The wrappers stack as in the source: the state of one is the inner state
-- of the next. The lock of `RateLimiter` makes `acquire` one step.
pub mod Rate
pub mod Deadline
mod Tests
use ironharness.Prelude.{
  ℕ, ◌+◌, ◌-◌, Bool, true, false, not, Option, none, some, List, [], ◌∷◌, ◌++◌, ltb, leb,
  if◌then◌else◌,
}

pub data Error : Type 0 where
  rate_limit_exceeded operation_timeout transport_closed : Error
  -- whatever the wrapped operation raises
  inner_error : ℕ → Error

pub data Outcome (A : Type 0) : Type 0 where
  returned : A → Outcome A
  raised : Error → Outcome A

-- The events that the wrappers hand to `on_event`.
pub data Event : Type 0 where
  rate_denied : Event
  -- the deadline, and how long the connection was idle
  deadline_denied : ℕ → ℕ → Event

pub record RateLimiter : Type 0 where
  pub max_calls : ℕ
  pub per : ℕ
  pub window_start : Option ℕ
  pub used : ℕ

abbrev pub new_limiter : ℕ → ℕ → RateLimiter
new_limiter max_calls per = record {
  max_calls = max_calls;
  per = per;
  window_start = none;
  used = 0;
}

pub window_over : Option ℕ → ℕ → ℕ → Bool
window_over none per now = true
window_over (some start) per now = leb (start + per) now

pub count_call : RateLimiter → Bool × RateLimiter
count_call l = (not (ltb l.max_calls (l.used + 1)), record l { used = l.used + 1 })

-- `acquire`: whether the call is let through, and the limiter. A refused call is counted too.
pub acquire : ℕ → RateLimiter → Bool × RateLimiter
unfolding window_over count_call
acquire now l =
    if window_over l.window_start l.per now
    then count_call (record l { window_start = some now; used = 0 })
    else count_call l

-- A `RateLimitedTransport` over a transport in state `inner`, with what it has emitted.
pub record RateLimited (S : Type 0) : Type 0 where
  pub inner : S
  pub limiter : RateLimiter
  pub events : List Event

-- `forwarded` of `RateLimitedTransport`: `now` is the clock of `acquire`.
pub rate_forward :
    {S A : Type 0} → ℕ → (S → Outcome A × S) → RateLimited S → Outcome A × RateLimited S
unfolding acquire
rate_forward now op t =
    let (admitted, limiter) = acquire now t.limiter in
    let (outcome, inner) = op t.inner in
    if admitted then (outcome, record t { inner = inner; limiter = limiter }) else (
      raised rate_limit_exceeded,
      record t { limiter = limiter; events = t.events ++ rate_denied ∷ [] },
    )

-- A `DeadlineTransport`.
pub record Deadlined (S : Type 0) : Type 0 where
  pub inner : S
  pub seconds : ℕ
  pub started : Option ℕ
  pub events : List Event

pub data Verdict : Type 0 where
  not_open in_time stale : Verdict

-- The three ways through `_check`.
pub verdict : Option ℕ → ℕ → ℕ → Verdict
verdict none seconds now = not_open
verdict (some started) seconds now = if ltb (started + seconds) now then stale else in_time

pub idle : Option ℕ → ℕ → ℕ
idle none now = 0
idle (some started) now = now - started

-- After the operation: the window moves only when it returned.
pub settle : {S A : Type 0} → ℕ → Outcome A × S → Deadlined S → Outcome A × Deadlined S
settle done (returned a, inner) t = (returned a, record t { inner = inner; started = some done })
settle done (raised e, inner) t = (raised e, record t { inner = inner })

-- `forwarded` of `DeadlineTransport`: `now` is the clock of `_check`, `done` the one after the
-- operation.
pub deadline_forward :
    {S A : Type 0} → ℕ → ℕ → (S → Outcome A × S) → Deadlined S → Outcome A × Deadlined S
unfolding verdict idle settle
deadline_forward now done op t = elim (verdict t.started t.seconds now) [
  | not_open ↦ (raised transport_closed, t)
  | in_time ↦ settle done (op t.inner) t
  | stale ↦ (
    raised operation_timeout,
    record t { events = t.events ++ deadline_denied t.seconds (idle t.started now) ∷ [] },
  )
]

-- `open` and `close` of `DeadlineTransport`: the clock is read once the inner `open` has returned.
pub deadline_open :
    {S : Type 0} → ℕ → (S → Outcome Unit × S) → Deadlined S → Outcome Unit × Deadlined S
unfolding settle
deadline_open now open_inner t = settle now (open_inner t.inner) t

pub deadline_close :
    {S : Type 0} → (S → Outcome Unit × S) → Deadlined S → Outcome Unit × Deadlined S
deadline_close close_inner t =
    let (outcome, inner) = close_inner t.inner in (outcome, record t { inner = inner })
