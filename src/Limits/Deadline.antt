-- ===== src/Limits/Deadline.antt =====
-- The idle deadline over whole sessions: a live session is never cut, a stale one stays cut.
use ironharness.Prelude.{
  ℕ, suc, ◌+◌, ◌≤◌, ◌<◌, ◌≡◌, refl, sym, subst, Option, none, some, List, [], ◌∷◌, ◌++◌, arith,
  length, length-append, some_inj,
}
use ironharness.Limits.{
  Outcome, returned, raised, Deadlined, in_time, stale, verdict, settle, idle, deadline_forward,
  deadline_denied,
}

verdict_in_time :
    (o : Option ℕ) (s seconds now : ℕ)
    → o ≡ some s
    → now ≤ s + seconds
    → verdict o seconds now ≡ in_time
unfolding verdict
verdict_in_time none s seconds now e h = cc
verdict_in_time (some x) s seconds now e h = ground (arith, some_inj e)

verdict_stale :
    (o : Option ℕ) (s seconds now : ℕ)
    → o ≡ some s
    → s + seconds < now
    → verdict o seconds now ≡ stale
unfolding verdict
verdict_stale none s seconds now e h = cc
verdict_stale (some x) s seconds now e h = ground (arith, some_inj e)

-- The clock at the check, the clock after the operation, and the operation.
pub record Call (S A : Type 0) : Type 0 where
  pub now : ℕ
  pub done : ℕ
  pub op : S → Outcome A × S

module _ {S A : Type 0} where
  -- The calls of a session in turn; an exception ends only its own call.
  pub run : List (Call S A) → Deadlined S → Deadlined S
  run [] t = t
  run (c ∷ calls) t = run calls (deadline_forward c.now c.done c.op t).1

  -- Each call is made within the deadline of the one before it, and returns.
  abbrev pub Lively : ℕ → ℕ → List (Call S A) → S → Type 0
  Lively started seconds [] x = Unit {0}
  Lively started seconds (c ∷ calls) x =
      (c.now ≤ started + seconds)
      × ((a : A) × ((c.op x).0 ≡ returned a))
      × Lively c.done seconds calls (c.op x).1

  -- The wrapped transport after the calls, with no wrapper.
  pub direct : List (Call S A) → S → S
  direct [] x = x
  direct (c ∷ calls) x = direct calls (c.op x).1

  settled :
      (done : ℕ) (p : Outcome A × S) (a : A) (t : Deadlined S)
      → p.0 ≡ returned a
      → (settle done p t).1 ≡ record t { inner = p.1; started = some done }
  unfolding settle
  settled done (returned b, x) a t e = refl
  settled done (raised e', x) a t e = cc

  module _ (c : Call S A) (t : Deadlined S) (s : ℕ) (open' : t.started ≡ some s) where
    forward_in_time :
        (a : A)
        → c.now ≤ s + t.seconds
        → (c.op t.inner).0 ≡ returned a
        → (deadline_forward c.now c.done c.op t).1
          ≡ record t { inner = (c.op t.inner).1; started = some c.done }
    unfolding deadline_forward
    forward_in_time a h r =
        rw (verdict_in_time t.started s t.seconds c.now open' h, deadline_forward)
          (settled c.done (c.op t.inner) a t r)

    forward_stale :
        s + t.seconds < c.now
        → (deadline_forward c.now c.done c.op t).1
          ≡ record t { events = t.events ++ deadline_denied t.seconds (idle t.started c.now) ∷ [] }
    unfolding deadline_forward
    forward_stale h = rw (verdict_stale t.started s t.seconds c.now open' h, deadline_forward) refl

  -- However long a session lasts, where every call returns and comes within the deadline of the
  -- return of the one before it, the wrapper refuses nothing: the wrapped transport ends as it
  -- does with no wrapper, and no denial is emitted.
  pub run-Lively :
      (calls : List (Call S A)) (t : Deadlined S) (started : ℕ)
      → t.started ≡ some started
      → Lively started t.seconds calls t.inner
      → ((run calls t).inner ≡ direct calls t.inner) × ((run calls t).events ≡ t.events)
  unfolding run direct
  run-Lively [] t started e l = (refl, refl)
  run-Lively (c ∷ calls) t started e (due, (a, ok), later) =
      subst
        (λ q.
          ((run calls q).inner ≡ direct calls (c.op t.inner).1) × ((run calls q).events ≡ t.events))
        (sym (forward_in_time c t started e a due ok))
        (run-Lively calls (record t { inner = (c.op t.inner).1; started = some c.done }) c.done refl
          later)

  -- The calls all come at `from` or later.
  abbrev pub From : ℕ → List (Call S A) → Type 0
  From from [] = Unit {0}
  From from (c ∷ calls) = (from ≤ c.now) × From from calls

  -- Once the deadline is past, no later call reaches the wrapped transport until it is opened
  -- again, and each of them emits one denial.
  pub run-stale :
      (calls : List (Call S A)) (t : Deadlined S) (started from : ℕ)
      → t.started ≡ some started
      → started + t.seconds < from
      → From from calls
      → ((run calls t).inner ≡ t.inner)
        × ((run calls t).started ≡ some started)
        × (length (run calls t).events ≡ length t.events + length calls)
  unfolding run
  run-stale [] t started from e h f = (refl, e, omega arith)
  run-stale (c ∷ calls) t started from e h (c_from, f) =
      let denied : Deadlined S = record t {
        events = t.events ++ deadline_denied t.seconds (idle t.started c.now) ∷ [];
      } in
      let (inner, still, count) = run-stale calls denied started from e h f in
      subst
        (λ q.
          ((run calls q).inner ≡ t.inner)
          × ((run calls q).started ≡ some started)
          × (length (run calls q).events ≡ length t.events + suc (length calls)))
        (sym (forward_stale c t started e (omega arith)))
        (
          inner,
          still,
          omega (
            arith,
            count,
            length-append {0} t.events (deadline_denied t.seconds (idle t.started c.now) ∷ []),
          ),
        )
