-- ===== src/Replay/Strict.antt =====
-- A strict replay accepts exactly the recorded writes.
use ironharness.Prelude.{
  ◌+◌, ◌≤◌, ◌≡◌, ◌↔◌, refl, sym, ap, ap₂, subst, ◌∙◌, Bool, true, false, not, ◌&&◌, Option, none,
  some, List, [], ◌∷◌, ◌++◌, arith, tests, Bytes, length, take, drop, ltb, length-take, length-drop,
  drop-all, drop-drop, take-append-drop, take-append_self, drop-append_self, if◌then◌else◌,
  Bool-cases, if_true, if_false, inl, inr, ge→ltb,
}
use ironharness.Prelude.Search.{same_bytes, same_bytes→eq, same_bytes_refl}
use ironharness.Replay.{ReplayTransport, write_bytes, close}
use ironharness.Replay.Slicing.{slice-take}

-- What the record has not been matched with yet.
pub unwritten : ReplayTransport → Bytes
unwritten t = drop t.wpos t.write_stream

abbrev pub joined : List Bytes → Bytes
joined [] = []
joined (b ∷ bs) = b ++ joined bs

-- A session that writes the given texts in turn and closes; false where a call raises.
pub accepts : List Bytes → ReplayTransport → Bool
unfolding write_bytes close
accepts [] t = not (close t).0
accepts (b ∷ bs) t = elim (write_bytes b t) [ none ↦ false | some t' ↦ accepts bs t' ]

accepts_after : List Bytes → Option ReplayTransport → Bool
accepts_after bs none = false
accepts_after bs (some t) = accepts bs t

pub record Open (t : ReplayTransport) : Type 0 where
  pub strict : t.strict ≡ true
  pub not_closed : t.closed ≡ false
  pub within : t.wpos ≤ length t.write_stream

abbrev moved : Bytes → ReplayTransport → ReplayTransport
moved b t = record t { wpos = t.wpos + length b }

write_strict :
    (b : Bytes) (t : ReplayTransport)
    → Open t
    → write_bytes b t
      ≡ (if same_bytes b (take (length b) (unwritten t)) then some (moved b t) else none)
unfolding write_bytes unwritten
write_strict b t o =
    if_true _ _ o.strict
    ∙ ap (λ r. if same_bytes b r then some (moved b t) else none)
        (slice-take t.write_stream t.wpos (length b))

close_strict : (t : ReplayTransport) → Open t → (close t).0 ≡ ltb t.wpos (length t.write_stream)
unfolding close
close_strict t o =
    ap (λ (p : Bool × ReplayTransport). p.0) (if_false _ _ o.not_closed)
    ∙ ap (λ b. b && ltb t.wpos (length t.write_stream)) o.strict

-- The recorded text begins with what is written.
module _ (b : Bytes) (t : ReplayTransport) (o : Open t) where
  unwritten-moved : unwritten (moved b t) ≡ drop (length b) (unwritten t)
  unfolding unwritten
  unwritten-moved = sym (drop-drop (length b) t.wpos t.write_stream)

  moved-Open : length b ≤ length (unwritten t) → Open (moved b t)
  unfolding unwritten
  moved-Open h = record {
    strict = o.strict;
    not_closed = o.not_closed;
    within = omega (arith, length-drop t.wpos t.write_stream, o.within, h);
  }

begins : (b u : Bytes) → b ≡ take (length b) u → length b ≤ length u
begins b u e = omega (arith, ap length e, length-take (length b) u)

not-true : (b : Bool) → not b ≡ true → b ≡ false
not-true true h = cc
not-true false h = refl

accepts_step :
    (b : Bytes) (bs : List Bytes) (t : ReplayTransport)
    → Open t
    → accepts (b ∷ bs) t
      ≡ (if same_bytes b (take (length b) (unwritten t)) then accepts bs (moved b t) else false)
unfolding accepts_after accepts write_bytes
accepts_step b bs t o =
    opened (write_bytes b t)
    ∙ ap (accepts_after bs) (write_strict b t o)
    ∙ pushed (same_bytes b (take (length b) (unwritten t)))
  where
    opened :
        (w : Option ReplayTransport)
        → elim w as (λ _. Bool) [ none ↦ false | some t' ↦ accepts bs t' ] ≡ accepts_after bs w
    opened none = refl
    opened (some t') = refl

    pushed :
        (c : Bool)
        → accepts_after bs (if c then some (moved b t) else none)
          ≡ (if c then accepts bs (moved b t) else false)
    pushed true = refl
    pushed false = refl

all_written : (t : ReplayTransport) → length t.write_stream ≤ t.wpos → unwritten t ≡ []
unfolding unwritten
all_written t h = drop-all t.wpos t.write_stream h

none_left : (t : ReplayTransport) → [] ≡ unwritten t → length t.write_stream ≤ t.wpos
unfolding unwritten
none_left t e = omega (arith, ap length e, length-drop t.wpos t.write_stream)

accepts-joined :
    (bs : List Bytes) (t : ReplayTransport) → Open t → accepts bs t ≡ true → joined bs ≡ unwritten t
unfolding accepts
accepts-joined [] t o a =
    let all = not-true (ltb t.wpos (length t.write_stream)) (rw (close_strict t o) at a) in
    sym (all_written t (omega (tests, all)))
accepts-joined (b ∷ bs) t o a = elim (Bool-cases (same_bytes b (take (length b) (unwritten t)))) [
  | inl hit ↦
      let same = same_bytes→eq b (take (length b) (unwritten t)) hit in
      let open' = moved-Open b t o (begins b (unwritten t) same) in
      let later : accepts bs (moved b t) ≡ true =
        cc (a, accepts_step b bs t o, if_true (accepts bs (moved b t)) false hit) in
      ap₂ ◌++◌ same (accepts-joined bs (moved b t) open' later ∙ unwritten-moved b t o)
      ∙ take-append-drop (length b) (unwritten t)
  | inr miss ↦ cc (a, accepts_step b bs t o, if_false (accepts bs (moved b t)) false miss)
]

joined-accepts :
    (bs : List Bytes) (t : ReplayTransport) → Open t → joined bs ≡ unwritten t → accepts bs t ≡ true
unfolding accepts
joined-accepts [] t o e =
    rw (close_strict t o) (ap not (ge→ltb t.wpos (length t.write_stream) (none_left t e)))
joined-accepts (b ∷ bs) t o e =
    accepts_step b bs t o
    ∙ if_true (accepts bs (moved b t)) false hit
    ∙ joined-accepts bs (moved b t) (moved-Open b t o (begins b (unwritten t) same)) later
  where
    same : b ≡ take (length b) (unwritten t)
    same = sym (take-append_self b (joined bs)) ∙ ap (take (length b)) e

    hit : same_bytes b (take (length b) (unwritten t)) ≡ true
    hit = subst (λ u. same_bytes b u ≡ true) same (same_bytes_refl b)

    later : joined bs ≡ unwritten (moved b t)
    later =
        sym (drop-append_self b (joined bs)) ∙ ap (drop (length b)) e ∙ sym (unwritten-moved b t o)

-- A strict replay lets a session write and close without a mismatch exactly when the texts that
-- it writes, joined, are the recorded writes that were left, however both were cut.
pub accepts_iff :
    (bs : List Bytes) (t : ReplayTransport)
    → Open t
    → (accepts bs t ≡ true) ↔ (joined bs ≡ unwritten t)
accepts_iff bs t o = (accepts-joined bs t o, joined-accepts bs t o)
