-- ===== src/Reader/Consume.antt =====
-- What `_consume_locked` takes away.
use ironharness.Prelude.{
  ℕ, ◌+◌, ◌-◌, ◌≤◌, ◌<◌, ◌≡◌, refl, sym, ap, ◌∙◌, inl, inr, List, [], ◌∷◌, ◌++◌, arith, Bytes,
  length, drop, ltb, Bool-cases, length-drop, drop-append_le, drop-append_ge, drop-drop, drop-nil,
  tests, ◌==◌, ==_iff,
}
use ironharness.Reader.{SerialReader, Chunk, joined, unconsumed, snapshot, consume, consume_locked}
use ironharness.Reader.Buffer.{Inv, Filled, Within, Over, zero-Within, unconsumed_none}

abbrev popped : Bytes → SerialReader → SerialReader
popped x r = record r { bytes = r.bytes - length x; consumed = 0 }

-- Consuming n bytes leaves the unconsumed text without its first n bytes.
consume-text :
    (chunks : List Chunk) (n : ℕ) (r : SerialReader)
    → Within r.consumed chunks
    → Filled chunks
    → snapshot (consume chunks n r) ≡ drop n (unconsumed r.consumed chunks)
unfolding consume unconsumed snapshot
consume-text [] n r w f = sym (drop-nil n)
consume-text ((t, x) ∷ rest) n r w f = elim (Bool-cases (n == 0)) [
  | inl e ↦ rw (e, (==_iff n 0).0 e)
  | inr more ↦ elim (Bool-cases (ltb n (length x - r.consumed))) [
    | inl less ↦ rw (more, less) (inside (omega (tests, less)))
    | inr past ↦
        rw (more, past)
          (beyond (omega (tests, past)) (
            consume-text rest (n - (length x - r.consumed)) (popped x r) (zero-Within rest f.1)
              f.1))
  ]
]
  where
    inside :
        n < length x - r.consumed
        → drop (r.consumed + n) x ++ joined rest ≡ drop n (drop r.consumed x ++ joined rest)
    inside h =
        ap (λ y. y ++ joined rest) (sym (drop-drop n r.consumed x))
        ∙ sym (
            drop-append_le n (drop r.consumed x) (joined rest)
              (omega (arith, length-drop r.consumed x)))

    beyond :
        length x - r.consumed ≤ n
        → snapshot (consume rest (n - (length x - r.consumed)) (popped x r))
          ≡ drop (n - (length x - r.consumed)) (unconsumed 0 rest)
        → snapshot (consume rest (n - (length x - r.consumed)) (popped x r))
          ≡ drop n (drop r.consumed x ++ joined rest)
    beyond h ih =
        ih
        ∙ ap (drop (n - (length x - r.consumed))) (unconsumed_none rest)
        ∙ ap (λ k. drop (n - k) (joined rest)) (sym (length-drop r.consumed x))
        ∙ sym (
            drop-append_ge n (drop r.consumed x) (joined rest)
              (omega (arith, length-drop r.consumed x)))

pub snapshot-consume_locked :
    (n : ℕ) (r : SerialReader) → Inv r → snapshot (consume_locked n r) ≡ drop n (snapshot r)
unfolding consume_locked snapshot
snapshot-consume_locked n r v = consume-text r.chunks n r v.within v.filled

-- The rest of the reader stays, and its buffer stays well formed.
consume-Inv :
    (chunks : List Chunk) (n : ℕ) (r : SerialReader)
    → Over r chunks
    → r.bytes ≤ r.max_bytes
    → Inv (consume chunks n r)
unfolding consume
consume-Inv [] n r h b = record {
  sound = record { sized = h.0; filled = tt; within = h.2 };
  bounded = b;
}
consume-Inv ((t, x) ∷ rest) n r h b =
    let ih =
      consume-Inv rest (n - (length x - r.consumed)) (popped x r)
        (omega (arith, h.0), h.1.1, zero-Within rest h.1.1) (omega arith) in
    elim (Bool-cases (n == 0)) [
      | inl e ↦
          rw e (record { sound = record { sized = h.0; filled = h.1; within = h.2 }; bounded = b })
      | inr more ↦ elim (Bool-cases (ltb n (length x - r.consumed))) [
        | inl less ↦
            rw (more, less)
              (record {
                sound = record { sized = h.0; filled = h.1; within = omega (tests, less) };
                bounded = b;
              })
        | inr past ↦ rw (more, past) ih
      ]
    ]

pub consume_locked-Inv : (n : ℕ) (r : SerialReader) → Inv r → Inv (consume_locked n r)
unfolding consume_locked
consume_locked-Inv n r v = consume-Inv r.chunks n r (v.sized, v.filled, v.within) v.bounded

consume-dropped :
    (chunks : List Chunk) (n : ℕ) (r : SerialReader) → (consume chunks n r).dropped ≡ r.dropped
unfolding consume
consume-dropped [] n r = refl
consume-dropped ((t, x) ∷ rest) n r =
    ground (arith, consume-dropped rest (n - (length x - r.consumed)) (popped x r))

pub dropped-consume_locked : (n : ℕ) (r : SerialReader) → (consume_locked n r).dropped ≡ r.dropped
unfolding consume_locked
dropped-consume_locked n r = consume-dropped r.chunks n r
