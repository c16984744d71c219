-- ===== src/Reader/Buffer.antt =====
-- The invariant of the reader's buffer, and where every byte of the device goes.
use ironharness.Prelude.{
  ℕ, ◌+◌, ◌-◌, ◌≤◌, ◌<◌, ◌≡◌, refl, sym, ap, ◌∙◌, inl, inr, List, [], ◌∷◌, ◌++◌, append-nil,
  append_assoc, arith, Bytes, length, drop, ltb, Bool-cases, length-append, length-drop, tests,
}
use ironharness.Reader.{SerialReader, Chunk, evict, ingest, joined, unconsumed, snapshot}

-- The bytes of all chunks, consumed prefix included.
abbrev pub total : List Chunk → ℕ
total [] = 0
total ((stamp, bytes) ∷ rest) = length bytes + total rest

abbrev pub Filled : List Chunk → Type 0
Filled [] = Unit {0}
Filled ((stamp, bytes) ∷ rest) = (0 < length bytes) × Filled rest

-- The consumed prefix is a proper part of the first chunk.
abbrev pub Within : ℕ → List Chunk → Type 0
Within c [] = c ≡ 0
Within c ((stamp, bytes) ∷ rest) = c < length bytes

-- What holds between any two blocks under the lock, but for the bound.
pub record Sound (r : SerialReader) : Type 0 where
  pub sized : r.bytes ≡ total r.chunks
  pub filled : Filled r.chunks
  pub within : Within r.consumed r.chunks

pub record Inv (r : SerialReader) : Type 0 where
  pub sound : Sound r
  pub open sound use *
  pub bounded : r.bytes ≤ r.max_bytes

pub zero-Within : (chunks : List Chunk) → Filled chunks → Within 0 chunks
zero-Within [] f = refl
zero-Within ((t, x) ∷ rest) f = f.0

pub length-unconsumed :
    (c : ℕ) (chunks : List Chunk)
    → Within c chunks
    → length (unconsumed c chunks) + c ≡ total chunks
unfolding unconsumed
length-unconsumed c [] w = omega arith
length-unconsumed c ((t, x) ∷ rest) w =
    omega (arith, length-append (drop c x) (joined rest), length-drop c x, length-joined rest)
  where
    length-joined : (l : List Chunk) → length (joined l) ≡ total l
    length-joined [] = refl
    length-joined ((t, x) ∷ l) = omega (arith, length-append x (joined l), length-joined l)

total-snoc : (l : List Chunk) (t : ℕ) (x : Bytes) → total (l ++ (t, x) ∷ []) ≡ total l + length x
total-snoc [] t x = omega arith
total-snoc ((u, y) ∷ l) t x = omega (arith, total-snoc l t x)

Filled-snoc : (l : List Chunk) (t b : ℕ) (bs : Bytes) → Filled l → Filled (l ++ (t, b ∷ bs) ∷ [])
Filled-snoc [] t b bs f = (omega arith, tt)
Filled-snoc ((u, y) ∷ l) t b bs f = (f.0, Filled-snoc l t b bs f.1)

Within-snoc :
    (c : ℕ) (l : List Chunk) (t b : ℕ) (bs : Bytes) → Within c l → Within c (l ++ (t, b ∷ bs) ∷ [])
Within-snoc c [] t b bs w = omega (arith, w)
Within-snoc c ((u, y) ∷ l) t b bs w = w

-- Eviction from a buffer whose list of chunks is `chunks`.
abbrev pub Over : SerialReader → List Chunk → Type 0
Over r chunks = (r.bytes ≡ total chunks) × Filled chunks × Within r.consumed chunks

pub evict-Inv : (chunks : List Chunk) (r : SerialReader) → Over r chunks → Inv (evict chunks r)
unfolding evict
evict-Inv [] r h = record {
  sound = record { sized = h.0; filled = tt; within = h.2 };
  bounded = omega (arith, h.0);
}
evict-Inv ((t, x) ∷ rest) r h =
    let ih =
      evict-Inv rest
        (record r {
          dropped = r.dropped + (length x - r.consumed);
          bytes = r.bytes - length x;
          consumed = 0;
        })
        (omega (arith, h.0), h.1.1, zero-Within rest h.1.1) in
    elim (Bool-cases (ltb r.max_bytes r.bytes)) [
      | inl e ↦ rw e ih
      | inr e ↦ rw e (record {
        sound = record { sized = h.0; filled = h.1; within = h.2 };
        bounded = omega (tests, e);
      })
    ]

pub ingest-Inv : (now : ℕ) (bytes : Bytes) (r : SerialReader) → Inv r → Inv (ingest now bytes r)
unfolding ingest
ingest-Inv now [] r v = v
ingest-Inv now (b ∷ bs) r v = evict-Inv (r.chunks ++ (now, b ∷ bs) ∷ []) _ (
  omega (arith, total-snoc r.chunks now (b ∷ bs), v.sized),
  Filled-snoc r.chunks now b bs v.filled,
  Within-snoc r.consumed r.chunks now b bs v.within,
)

-- What eviction takes away is a prefix of what was not consumed, and `dropped` counts it.
abbrev pub Loses : Bytes → SerialReader → SerialReader → Type 0
Loses text r r' =
    (lost : Bytes) × (text ≡ lost ++ snapshot r') × (r'.dropped ≡ r.dropped + length lost)

pub unconsumed_none : (chunks : List Chunk) → unconsumed 0 chunks ≡ joined chunks
unfolding unconsumed joined
unconsumed_none [] = refl
unconsumed_none ((t, x) ∷ rest) = refl

evict-Loses :
    (chunks : List Chunk) (r : SerialReader)
    → Within r.consumed chunks
    → Filled chunks
    → Loses (unconsumed r.consumed chunks) r (evict chunks r)
unfolding evict unconsumed snapshot
evict-Loses [] r w f = ([], refl, omega arith)
evict-Loses ((t, x) ∷ rest) r w f =
    let (lost, text, counted) =
      evict-Loses rest
        (record r {
          dropped = r.dropped + (length x - r.consumed);
          bytes = r.bytes - length x;
          consumed = 0;
        })
        (zero-Within rest f.1) f.1 in
    elim (Bool-cases (ltb r.max_bytes r.bytes)) [
      | inl e ↦ rw e (
        drop r.consumed x ++ lost,
        ap (◌++◌ (drop r.consumed x)) (sym (unconsumed_none rest) ∙ text)
            ∙ sym (append_assoc (drop r.consumed x) lost _),
        omega (arith, counted, length-append (drop r.consumed x) lost, length-drop r.consumed x),
      )
      | inr e ↦ rw e ([], refl, omega arith)
    ]

joined-snoc : (l : List Chunk) (t : ℕ) (x : Bytes) → joined (l ++ (t, x) ∷ []) ≡ joined l ++ x
unfolding joined
joined-snoc [] t x = append-nil x
joined-snoc ((u, y) ∷ l) t x = ap (◌++◌ y) (joined-snoc l t x) ∙ sym (append_assoc y (joined l) x)

unconsumed-snoc :
    (c : ℕ) (l : List Chunk) (t : ℕ) (x : Bytes)
    → Within c l
    → unconsumed c (l ++ (t, x) ∷ []) ≡ unconsumed c l ++ x
unfolding unconsumed joined
unconsumed-snoc c [] t x w = rw w (append-nil x)
unconsumed-snoc c ((u, y) ∷ l) t x w =
    ap (◌++◌ (drop c y)) (joined-snoc l t x) ∙ sym (append_assoc (drop c y) (joined l) x)

-- Bytes that arrive go to the end; what the bound pushes out is the oldest unconsumed text, and
-- `dropped` grows by exactly its length.
pub ingest-Loses :
    (now : ℕ) (bytes : Bytes) (r : SerialReader)
    → Inv r
    → Loses (snapshot r ++ bytes) r (ingest now bytes r)
unfolding ingest snapshot
ingest-Loses now [] r v = ([], append-nil _, omega arith)
ingest-Loses now (b ∷ bs) r v =
    let (lost, text, counted) =
      evict-Loses (r.chunks ++ (now, b ∷ bs) ∷ [])
        (record r { chunks = r.chunks ++ (now, b ∷ bs) ∷ []; bytes = r.bytes + length (b ∷ bs) })
        (Within-snoc r.consumed r.chunks now b bs v.within)
        (Filled-snoc r.chunks now b bs v.filled) in
    (lost, sym (unconsumed-snoc r.consumed r.chunks now (b ∷ bs) v.within) ∙ text, counted)
