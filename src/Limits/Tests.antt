-- ===== src/Limits/Tests.antt =====
-- The limits at concrete inputs: a transport that counts its operations.
use ironharness.Prelude.{ℕ, suc, ◌+◌, ◌≤◌, ◌≡◌, refl, some, [], ◌∷◌, arith}
use ironharness.Limits.{
  Outcome, returned, raised, RateLimiter, Deadlined, rate_forward, deadline_forward,
  rate_limit_exceeded, deadline_denied,
}
use ironharness.Limits.Rate.{admitted, admitted-twice}
use ironharness.Limits.Deadline.{Call, run, direct, run-Lively}

tick : ℕ → Outcome ℕ × ℕ
tick n = (returned n, suc n)

abbrev call : ℕ → Call ℕ ℕ
call now = record { now = now; done = now + 1; op = λ n. (returned n, suc n) }

abbrev board : Deadlined ℕ
board = record { inner = 0; seconds = 10; started = some 0; events = [] }

third_call_refused :
    (rate_forward 2 tick (record {
      inner = 5;
      limiter = record { max_calls = 2; per = 60; window_start = some 0; used = 2 };
      events = [];
    })).0
    ≡ raised rate_limit_exceeded
unfolding rate_forward
third_call_refused = refl

idle_is_reported : (deadline_forward 25 26 tick board).1.events ≡ deadline_denied 10 25 ∷ []
unfolding deadline_forward
idle_is_reported = refl

abbrev spent : RateLimiter
spent = record { max_calls = 2; per = 10; window_start = some 0; used = 1 }

admitted-twice_example : admitted (8 ∷ 9 ∷ 10 ∷ 11 ∷ 12 ∷ []) spent ≤ 3
admitted-twice_example = admitted-twice 8 (8 ∷ 9 ∷ 10 ∷ 11 ∷ 12 ∷ []) spent (omega arith)

run-Lively_example :
    ((run (call 9 ∷ call 19 ∷ []) board).inner ≡ direct (call 9 ∷ call 19 ∷ []) 0)
    × ((run (call 9 ∷ call 19 ∷ []) board).events ≡ [])
run-Lively_example =
    run-Lively (call 9 ∷ call 19 ∷ []) board 0 refl
      (omega arith, (0, refl), (omega arith, (1, refl), tt))
