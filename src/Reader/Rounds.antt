-- ===== src/Reader/Rounds.antt =====
-- The rounds of the background thread: whatever the port does, the buffer stays well formed, and
-- no byte that was read is lost without being counted.
use ironharness.Prelude.{
  ℕ, zero, suc, min, ◌≡◌, refl, sym, ap, ◌∙◌, inl, inr, Bool, true, false, Option, none, some, [],
  ◌∷◌, ◌++◌, append-nil, append_assoc, arith, Bytes, Bool-cases, if_ind, length-append,
  if◌then◌else◌,
}
use ironharness.Reader.{
  SerialReader, Port, ReadResult, got, failed, Next, Between, over, after_read, drain, run_round,
  run_rounds, snapshot, serve,
}
use ironharness.Reader.Buffer.{Inv, Loses, ingest-Inv, ingest-Loses}

after_read-Inv : (p : Port) (o : ReadResult) (r : SerialReader) → Inv r → Inv (after_read p o r).0
unfolding after_read
after_read-Inv p (got bytes) r v = ingest-Inv p.now bytes r v
after_read-Inv p (failed e) r v = record {
  sound = record { sized = v.sized; filled = v.filled; within = v.within };
  bounded = v.bounded;
}

drain-Inv : (p : Port) (size : ℕ) (r : SerialReader) → Inv r → Inv (drain p size r).0
unfolding drain
drain-Inv p size r v = elim (Bool-cases p.stop_at_lock) [
  | inl e ↦ rw e (record {
    sound = record { sized = v.sized; filled = v.filled; within = v.within };
    bounded = v.bounded;
  })
  | inr e ↦ rw e (after_read-Inv p (p.read size) r v)
]

serve-Inv : (p : Port) (o : Option ℕ) (r : SerialReader) → Inv r → Inv (serve p o r).0
unfolding serve
serve-Inv p none r v = drain-Inv p r.chunk r v
serve-Inv p (some zero) r v = v
serve-Inv p (some (suc n)) r v = drain-Inv p (min (suc n) r.chunk) r v

over-Inv : (r : SerialReader) → Inv r → Inv (over r).0
unfolding over
over-Inv r v = record {
  sound = record { sized = v.sized; filled = v.filled; within = v.within };
  bounded = v.bounded;
}

pub run_round-Inv : (p : Port) (r : SerialReader) → Inv r → Inv (run_round p r).0
unfolding run_round
run_round-Inv p r v =
    if_ind (λ (q : SerialReader × Next). Inv q.0) r.stop (λ e. over-Inv r v)
      (λ e. serve-Inv p p.in_waiting r v)

-- Whatever the port does in any number of rounds, the buffer is well formed after them: the byte
-- count is that of the chunks, it keeps within `max_bytes`, no chunk is empty, and the consumed
-- prefix is a proper part of the first chunk.
pub run_rounds-Inv : (ports : Between) (r : SerialReader) → Inv r → Inv (run_rounds ports r)
unfolding run_rounds
run_rounds-Inv [] r v = v
run_rounds-Inv (p ∷ ps) r v = run_rounds-Inv ps (run_round p r).0 (run_round-Inv p r v)

-- The bytes that a round reads from its port.
bytes_of : ReadResult → Bytes
bytes_of (got bytes) = bytes
bytes_of (failed e) = []

at_size : Port → ℕ → Bytes
at_size p size = if p.stop_at_lock then [] else bytes_of (p.read size)

sized_read : Port → Option ℕ → ℕ → Bytes
unfolding at_size bytes_of
sized_read p none chunk = at_size p chunk
sized_read p (some zero) chunk = []
sized_read p (some (suc n)) chunk = at_size p (min (suc n) chunk)

read_in_round : Port → SerialReader → Bytes
unfolding sized_read
read_in_round p r = if r.stop then [] else sized_read p p.in_waiting r.chunk

unfoldable pub read_in_rounds : Between → SerialReader → Bytes
unfolding read_in_round
read_in_rounds [] r = []
read_in_rounds (p ∷ ps) r = read_in_round p r ++ read_in_rounds ps (run_round p r).0

module _ (r : SerialReader) where
  unchanged :
      (r' : SerialReader)
      → snapshot r' ≡ snapshot r
      → r'.dropped ≡ r.dropped
      → Loses (snapshot r ++ []) r r'
  unchanged r' s d = ([], append-nil _ ∙ sym s, omega (arith, d))

  over-Loses : Loses (snapshot r ++ []) r (over r).0
  unfolding over snapshot
  over-Loses = unchanged (over r).0 refl refl

  after_read-Loses :
      (p : Port) (o : ReadResult) → Inv r → Loses (snapshot r ++ bytes_of o) r (after_read p o r).0
  unfolding after_read bytes_of snapshot
  after_read-Loses p (got bytes) v = ingest-Loses p.now bytes r v
  after_read-Loses p (failed e) v = unchanged (after_read p (failed e) r).0 refl refl

  drain-Loses :
      (p : Port) (size : ℕ) → Inv r → Loses (snapshot r ++ at_size p size) r (drain p size r).0
  unfolding drain at_size snapshot
  drain-Loses p size v = elim (Bool-cases p.stop_at_lock) [
    | inl e ↦ rw (e, drain, at_size) (unchanged (over (record r { stop = true })).0 refl refl)
    | inr e ↦ rw (e, drain, at_size) (after_read-Loses p (p.read size) v)
  ]

  serve-Loses :
      (p : Port) (o : Option ℕ)
      → Inv r
      → Loses (snapshot r ++ sized_read p o r.chunk) r (serve p o r).0
  unfolding serve sized_read
  serve-Loses p none v = drain-Loses p r.chunk v
  serve-Loses p (some zero) v = unchanged r refl refl
  serve-Loses p (some (suc n)) v = drain-Loses p (min (suc n) r.chunk) v

  round-Loses : (p : Port) → Inv r → Loses (snapshot r ++ read_in_round p r) r (run_round p r).0
  unfolding run_round read_in_round
  round-Loses p v = go r.stop
    where
      go :
          (b : Bool)
          → Loses
              (snapshot r ++ (if b then [] else sized_read p p.in_waiting r.chunk))
              r
              (if b then over r else serve p p.in_waiting r).0
      go true = over-Loses
      go false = serve-Loses p p.in_waiting v

-- Of all that was unconsumed or was read in the rounds, the buffer holds the newest part, and
-- `dropped` grew by exactly the length of the rest.
pub run_rounds-Loses :
    (ports : Between) (r : SerialReader)
    → Inv r
    → Loses (snapshot r ++ read_in_rounds ports r) r (run_rounds ports r)
unfolding run_rounds read_in_rounds
run_rounds-Loses [] r v = unchanged r r refl refl
run_rounds-Loses (p ∷ ps) r v =
    let (lost, text, counted) = round-Loses r p v in
    let (more, text', counted') = run_rounds-Loses ps (run_round p r).0 (run_round-Inv p r v) in
    (
      lost ++ more,
      sym (append_assoc (snapshot r) (read_in_round p r) _)
          ∙ ap (λ t. t ++ read_in_rounds ps (run_round p r).0) text
          ∙ append_assoc lost _ _
          ∙ ap (◌++◌ lost) text'
          ∙ sym (append_assoc lost more _),
      omega (arith, counted, counted', length-append lost more),
    )
