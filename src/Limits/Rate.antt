-- ===== src/Limits/Rate.antt =====
-- How many calls a limiter lets through.
use ironharness.Prelude.{
  ℕ, suc, ◌+◌, ◌-◌, ◌≤◌, ◌<◌, min, ◌≡◌, refl, Bool, true, false, Option, none, some, List, [], ◌∷◌,
  arith, length, ltb, if◌then◌else◌, Bool-cases, inl, inr, tests, if_true, if_false, ap, sym, subst,
  ◌∙◌, some_inj,
}
use ironharness.Limits.{RateLimiter, new_limiter, window_over, count_call, acquire}

-- A run of calls at the given times: how many are let through.
pub admitted : List ℕ → RateLimiter → ℕ
admitted [] l = 0
admitted (now ∷ times) l =
    let (ok, l') = acquire now l in let rest = admitted times l' in if ok then suc rest else rest

abbrev pub All : (ℕ → Type 0) → List ℕ → Type 0
All P [] = Unit {0}
All P (x ∷ xs) = P x × All P xs

tally : List ℕ → Bool × RateLimiter → ℕ
unfolding admitted
tally times p = if p.0 then suc (admitted times p.1) else admitted times p.1

abbrev one_more : RateLimiter → RateLimiter
one_more l = record l { used = l.used + 1 }

abbrev restarted : ℕ → RateLimiter → RateLimiter
restarted now l = record l { window_start = some now; used = 0 }

tally_count :
    (times : List ℕ) (l : RateLimiter)
    → admitted times (one_more l) ≡ min (length times) (l.max_calls - (l.used + 1))
    → tally times (count_call l) ≡ min (suc (length times)) (l.max_calls - l.used)
unfolding tally count_call
tally_count times l ih = elim (Bool-cases (ltb l.max_calls (l.used + 1))) [
  | inl e ↦ rw e (omega (tests, e, ih))
  | inr e ↦ rw e (omega (tests, e, ih))
]

window_lasts :
    (o : Option ℕ) (start per now : ℕ)
    → o ≡ some start
    → now < start + per
    → window_over o per now ≡ false
unfolding window_over
window_lasts none start per now e h = cc
window_lasts (some s) start per now e h = ground (arith, some_inj e)

-- While the window of `start` lasts, calls go through until `max_calls` are used up.
in_window :
    (times : List ℕ) (l : RateLimiter) (start : ℕ)
    → l.window_start ≡ some start
    → All (λ now. now < start + l.per) times
    → admitted times l ≡ min (length times) (l.max_calls - l.used)
unfolding admitted tally acquire
in_window [] l start w a = omega arith
in_window (now ∷ times) l start w a =
    ap (tally times) (if_false _ _ (window_lasts l.window_start start l.per now w a.0))
    ∙ tally_count times l (in_window times (one_more l) start w a.1)

admitted_restart :
    (now : ℕ) (times : List ℕ) (l : RateLimiter)
    → window_over l.window_start l.per now ≡ true
    → All (λ t. t < now + l.per) times
    → admitted (now ∷ times) l ≡ min (suc (length times)) l.max_calls
unfolding admitted tally acquire
admitted_restart now times l over a =
    ap (tally times) (if_true _ _ over)
    ∙ tally_count times (restarted now l) (in_window times (one_more (restarted now l)) now refl a)
    ∙ from_zero (suc (length times)) l.max_calls
  where
    from_zero : (n m : ℕ) → min n (m - 0) ≡ min n m
    from_zero n m = omega arith

-- A new limiter lets the first `max_calls` calls of a window through, and no other.
pub admitted-first_window :
    (max_calls per now : ℕ) (times : List ℕ)
    → All (λ t. t < now + per) times
    → admitted (now ∷ times) (new_limiter max_calls per) ≡ min (suc (length times)) max_calls
admitted-first_window max_calls per now times a =
    admitted_restart now times (new_limiter max_calls per) (unfold window_over in refl) a

All-map : (P Q : ℕ → Type 0) (xs : List ℕ) → ((x : ℕ) → P x → Q x) → All P xs → All Q xs
All-map P Q [] f a = tt
All-map P Q (x ∷ xs) f a = (f x a.0, All-map P Q xs f a.1)

tally-le :
    (times : List ℕ) (l : RateLimiter)
    → admitted times (one_more l) ≤ l.max_calls - (l.used + 1) + l.max_calls
    → tally times (count_call l) ≤ l.max_calls - l.used + l.max_calls
unfolding tally count_call
tally-le times l ih = elim (Bool-cases (ltb l.max_calls (l.used + 1))) [
  | inl e ↦ rw e (omega (tests, e, ih))
  | inr e ↦ rw e (omega (tests, e, ih))
]

-- In whatever state a limiter is, of the calls that fall into a stretch of time of the length of
-- its window it lets through at most what is left of the current window and `max_calls` more.
pub admitted-twice :
    (from : ℕ) (times : List ℕ) (l : RateLimiter)
    → All (λ t. (from ≤ t) × (t < from + l.per)) times
    → admitted times l ≤ (l.max_calls - l.used) + l.max_calls
unfolding admitted tally acquire
admitted-twice from [] l a = omega arith
admitted-twice from (now ∷ times) l a = elim (Bool-cases (window_over l.window_start l.per now)) [
  | inl over ↦
      omega (arith, admitted_restart now times l over (All-map _ _ times (λ t h. omega arith) a.1))
  | inr on ↦
      subst (λ p. tally times p ≤ l.max_calls - l.used + l.max_calls)
        (sym (if_false (count_call (restarted now l)) (count_call l) on))
        (tally-le times l (admitted-twice from times (one_more l) a.1))
]
