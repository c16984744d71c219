-- ===== src/Reader/Views.antt =====
-- What `tail` and `stats` show of the buffer.
use ironharness.Prelude.{
  ℕ, suc, ◌-◌, min, ◌≡◌, refl, sym, ap, ◌∙◌, List, [], ◌∷◌, ◌++◌, arith, Bytes, length, take, drop,
  length-append, length-drop, take-append-drop, drop-all,
}
use ironharness.Prelude.Hex.{hex}
use ironharness.Reader.{
  SerialReader, Chunk, unconsumed, snapshot, consume_locked, joined, consumed_if_any, last_bytes,
  tail, stats,
}
use ironharness.Reader.Buffer.{Inv, Within, total, length-unconsumed}
use ironharness.Reader.Consume.{snapshot-consume_locked, consume_locked-Inv, dropped-consume_locked}

last_bytes-suffix :
    (k : ℕ) (buf : Bytes)
    → (older : Bytes) × (buf ≡ older ++ last_bytes (suc k) buf)
      × (length (last_bytes (suc k) buf) ≡ min (suc k) (length buf))
unfolding last_bytes
last_bytes-suffix k buf = (
  take (length buf - suc k) buf,
  sym (take-append-drop (length buf - suc k) buf),
  omega (arith, length-drop (length buf - suc k) buf),
)

counted :
    (c bytes : ℕ) (chunks : List Chunk)
    → Within c chunks
    → bytes ≡ total chunks
    → bytes - consumed_if_any chunks c ≡ length (unconsumed c chunks)
counted c bytes [] w e = omega (arith, length-unconsumed c [] w)
counted c bytes ((t, x) ∷ rest) w e = omega (arith, length-unconsumed c ((t, x) ∷ rest) w)

pub buffered-snapshot : (r : SerialReader) → Inv r → (stats r).buffered ≡ length (snapshot r)
unfolding stats snapshot
buffered-snapshot r v = counted r.consumed r.bytes r.chunks v.within v.sized

-- `tail` shows the newest bytes: the buffer is some older text followed by what is shown, and
-- that is as long as was asked for, or the whole buffer where it is shorter. `stats` counts the
-- bytes that `tail` can show.
pub tail-newest :
    (decode : Bytes → Bytes) (k : ℕ) (r : SerialReader)
    → Inv r
    → (older newest : Bytes) × (snapshot r ≡ older ++ newest)
      × (length newest ≡ min (suc k) (stats r).buffered)
      × ((tail decode (suc k) r).data_hex ≡ hex newest)
unfolding tail
tail-newest decode k r v =
    let (older, split, size) = last_bytes-suffix k (snapshot r) in
    (
      older,
      last_bytes (suc k) (snapshot r),
      split,
      omega (arith, size, buffered-snapshot r v),
      refl,
    )

emptied :
    (c : ℕ) (chunks : List Chunk)
    → Within c chunks
    → length (unconsumed c chunks) ≡ 0
    → consumed_if_any chunks c ≡ 0
unfolding unconsumed
emptied c [] w e = refl
emptied c ((t, x) ∷ rest) w e =
    absurd (omega (arith, length-append (drop c x) (joined rest), length-drop c x))

emptied_reader :
    (q : SerialReader) → Inv q → length (snapshot q) ≡ 0 → consumed_if_any q.chunks q.consumed ≡ 0
unfolding snapshot
emptied_reader q v e = emptied q.consumed q.chunks v.within e

-- The number that `tail` reports as `dropped` forgets what `read_until` has taken: once a call has
-- consumed the whole buffer, however long, it is back at the count of evicted bytes alone.
pub tail_dropped-consume_all :
    (decode : Bytes → Bytes) (size : ℕ) (r : SerialReader)
    → Inv r
    → (tail decode size (consume_locked (length (snapshot r)) r)).dropped ≡ r.dropped
unfolding tail
tail_dropped-consume_all decode size r v =
    let n = length (snapshot r) in
    let v' = consume_locked-Inv n r v in
    let gone = snapshot-consume_locked n r v ∙ drop-all n (snapshot r) (omega arith) in
    omega
      (arith, dropped-consume_locked n r, emptied_reader (consume_locked n r) v' (ap length gone))
