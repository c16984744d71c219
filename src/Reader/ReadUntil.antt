-- ===== src/Reader/ReadUntil.antt =====
-- `read_until`: what a reply means, and that every call ends.
use ironharness.Prelude.{
  ℕ, ◌+◌, ◌≤◌, ◌<◌, ◌≡◌, ◌≢◌, refl, sym, ap, ◌∙◌, ◌⊎◌, inl, inr, Bool, true, false, ◌||◌, Option,
  none, some, List, [], ◌∷◌, ◌++◌, arith, Bytes, length, take, Bool-cases, Option-cases, if_ind,
  ap₂, length-take, take-append-drop, leb, leb→le,
}
use ironharness.Prelude.Search.{find, find-split}
use ironharness.Prelude.Hex.{hex}
use ironharness.Reader.{
  SerialReader, Reply, Between, Outcome, replied, PortError, snapshot, consume_locked, is_some,
  reply, poll, run_rounds, await, read_until,
}
use ironharness.Reader.Buffer.{Inv}
use ironharness.Reader.Consume.{snapshot-consume_locked, consume_locked-Inv}
use ironharness.Reader.Rounds.{run_rounds-Inv}

-- The call answers with the text up to the end of the first match, and only that text is gone.
pub record Hit (needle : Bytes) (r : SerialReader) (answer : Reply) (r' : SerialReader)
    : Type 0 where
  pub before : Bytes
  pub first : find needle (snapshot r) ≡ some (length before)
  pub text : answer.data_hex ≡ hex (before ++ needle)
  pub rest : snapshot r ≡ before ++ needle ++ snapshot r'

-- The call gave up: the pattern is not in the buffer, the answer is the whole buffer, which stays,
-- and there was a reason to stop.
pub record Miss (needle : Bytes) (deadline now : ℕ) (r : SerialReader) (answer : Reply)
    (r' : SerialReader) : Type 0 where
  pub absent : find needle (snapshot r) ≡ none
  pub text : answer.data_hex ≡ hex (snapshot r)
  pub error : answer.error ≡ r.error
  pub same : r' ≡ r
  pub reason : (r.error ≢ none) ⊎ ((deadline ≤ now) ⊎ (r.stop ≡ true))

abbrev pub Polled : Bytes → ℕ → ℕ → SerialReader → Option (Reply × SerialReader) → Type 0
Polled needle deadline now r none =
    (find needle (snapshot r) ≡ none) × (r.error ≡ none) × (now < deadline) × (r.stop ≡ false)
Polled needle deadline now r (some (answer, r')) =
    (answer.found ≡ true) × Hit needle r answer r'
    ⊎ (answer.found ≡ false) × Miss needle deadline now r answer r'

stop_reason :
    (e : Option PortError) (deadline now : ℕ) (s : Bool)
    → (is_some e || leb deadline now || s) ≡ true
    → (e ≢ none) ⊎ ((deadline ≤ now) ⊎ (s ≡ true))
unfolding is_some
stop_reason (some x) deadline now s h = inl (λ q. cc)
stop_reason none deadline now s h = inr (elim (Bool-cases (leb deadline now)) [
  | inl due ↦ inl (leb→le deadline now due)
  | inr early ↦ inr (rw early at h)
])

no_reason :
    (e : Option PortError) (deadline now : ℕ) (s : Bool)
    → (is_some e || leb deadline now || s) ≡ false
    → (e ≡ none) × (now < deadline) × (s ≡ false)
unfolding is_some
no_reason (some x) deadline now s h = cc
no_reason none deadline now s h = ground arith

module _ (decode : Bytes → Bytes) (needle : Bytes) (deadline now : ℕ) (r : SerialReader) where
  hit :
      (pos : ℕ)
      → Inv r
      → find needle (snapshot r) ≡ some pos
      → Hit needle r
          (reply decode true (take (pos + length needle) (snapshot r)) none r)
          (consume_locked (pos + length needle) r)
  unfolding reply
  hit pos v e = record {
    before = take pos (snapshot r);
    first =
        e
        ∙ ap some
            (omega (arith, length-take pos (snapshot r), (find-split needle (snapshot r) pos e).1));
    text = ap hex (find-split needle (snapshot r) pos e).0;
    rest =
        sym (take-append-drop (pos + length needle) (snapshot r))
        ∙ ap₂ ◌++◌ (find-split needle (snapshot r) pos e).0
            (sym (snapshot-consume_locked (pos + length needle) r v));
  }

  miss :
      find needle (snapshot r) ≡ none
      → (is_some r.error || leb deadline now || r.stop) ≡ true
      → Miss needle deadline now r (reply decode false (snapshot r) r.error r) r
  unfolding reply
  miss e s = record {
    absent = e;
    text = refl;
    error = refl;
    same = refl;
    reason = stop_reason r.error deadline now r.stop s;
  }

  -- One round of the loop answers exactly when the pattern stands in the buffer, or the thread has
  -- died, or the deadline has come, or the reader is being stopped.
  pub poll-Polled : Inv r → Polled needle deadline now r (poll decode needle deadline now r)
  unfolding poll reply
  poll-Polled v = elim (Option-cases (find needle (snapshot r))) [
    | inl e ↦
        rw (e, poll)
          (if_ind (Polled needle deadline now r) (is_some r.error || leb deadline now || r.stop)
            (λ s. inr (refl, miss e s))
            (λ s. let (a, b, c) = no_reason r.error deadline now r.stop s in (e, a, b, c)))
    | inr (pos, e) ↦ rw (e, poll) (inl (refl, hit pos v e))
  ]

-- Some round of the schedule is at or past the deadline.
abbrev pub Comes : ℕ → List (Between × ℕ) → Type 0
Comes deadline [] = ⊥
Comes deadline ((between, now) ∷ later) = (deadline ≤ now) ⊎ Comes deadline later

-- How a call ends: with the answer of one of its rounds, taken in a well-formed state.
pub data Ends (needle : Bytes) (deadline : ℕ) : Outcome → Type 0 where
  by :
      (now : ℕ) (r : SerialReader) (answer : Reply) (r' : SerialReader)
      → Inv r
      → Inv r'
      → Polled needle deadline now r (some (answer, r'))
      → Ends needle deadline (replied answer r')

abbrev Keeps : Option (Reply × SerialReader) → Type 0
Keeps none = Unit {0}
Keeps (some (answer, r')) = Inv r'

module _ (decode : Bytes → Bytes) (needle : Bytes) (deadline : ℕ) where
  poll-Keeps : (now : ℕ) (r : SerialReader) → Inv r → Keeps (poll decode needle deadline now r)
  unfolding poll
  poll-Keeps now r v = elim (Option-cases (find needle (snapshot r))) [
    | inl e ↦
        rw (e, poll)
          (if_ind Keeps (is_some r.error || leb deadline now || r.stop) (λ s. v) (λ s. tt))
    | inr (pos, e) ↦ rw (e, poll) (consume_locked-Inv (pos + length needle) r v)
  ]

  await-Ends :
      (schedule : List (Between × ℕ)) (r : SerialReader)
      → Inv r
      → Comes deadline schedule
      → Ends needle deadline (await decode needle deadline schedule r)
  unfolding await
  await-Ends [] r v c = absurd c
  await-Ends ((between, now) ∷ later) r v c =
      go (poll decode needle deadline now (run_rounds between r))
        (poll-Polled decode needle deadline now (run_rounds between r) settled)
        (poll-Keeps now (run_rounds between r) settled) c
        (await-Ends later (run_rounds between r) settled)
    where
      settled : Inv (run_rounds between r)
      settled = run_rounds-Inv between r v

      go :
          (o : Option (Reply × SerialReader))
          → Polled needle deadline now (run_rounds between r) o
          → Keeps o
          → (deadline ≤ now) ⊎ Comes deadline later
          → (Comes deadline later
              → Ends needle deadline (await decode needle deadline later (run_rounds between r)))
          → Ends needle deadline (elim o [
            | none ↦ await decode needle deadline later (run_rounds between r)
            | some (answer, r'') ↦ replied answer r''
          ])
      go none p k (inl due) ih = absurd (omega (arith, p.2))
      go none p k (inr c) ih = ih c
      go (some (answer, r')) p k c ih = by now (run_rounds between r) answer r' settled k p

-- A call with a pattern that is not empty comes back at the latest in the first round at or past
-- its deadline, whatever the port does meanwhile: with a match, of which exactly the text up to
-- its end is taken from the buffer, or with the whole buffer, left in place, once the deadline
-- has come, the thread has died or the reader is being stopped.
pub read_until-Ends :
    (decode : Bytes → Bytes) (b : ℕ) (bs : Bytes) (timeout start : ℕ)
    (schedule : List (Between × ℕ)) (r : SerialReader)
    → Inv r
    → Comes (start + timeout) schedule
    → Ends (b ∷ bs) (start + timeout) (read_until decode (b ∷ bs) timeout start schedule r)
unfolding read_until
read_until-Ends decode b bs timeout start schedule r v c =
    await-Ends decode (b ∷ bs) (start + timeout) schedule r v c
