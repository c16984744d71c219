-- ===== src/Modbus/Registers.antt =====
-- What is written to the registers of the simulated Modbus server is what is read.
use ironharness.Prelude.{
  ℕ, ◌+◌, ◌*◌, ◌/◌, ◌%◌, ◌≤◌, ◌<◌, ◌≡◌, refl, sym, ap, ap₂, ◌∙◌, Option, some, List, [], ◌∷◌, ◌++◌,
  Bytes, length, take, drop, arith, length-append, length-take, length-drop, take-append_self,
  drop-append_self, take-all, if_true, lt→ltb, ge→ltb,
}
use ironharness.Modbus.{
  word, words, push_word, pack, read_registers, write_registers, handle_block, handle_pdu,
}

word_of : (v : ℕ) → word (v / 256) (v % 256) ≡ v
unfolding word
word_of v = omega arith

abbrev pub Packed : List ℕ → Bytes → Type 0
Packed [] bytes = bytes ≡ []
Packed (v ∷ values) bytes =
    (v < 65536) × ((more : Bytes) × (bytes ≡ v / 256 ∷ v % 256 ∷ more) × Packed values more)

pack-Packed : (values : List ℕ) (bytes : Bytes) → Packed values bytes → pack values ≡ some bytes
unfolding pack
pack-Packed [] bytes e = ap some (sym e)
pack-Packed (v ∷ values) bytes (small, (more, e, packed)) =
    if_true _ _ (lt→ltb v 65536 small)
    ∙ ap (push_word v) (pack-Packed values more packed)
    ∙ ap some (sym e)

words-Packed : (values : List ℕ) (bytes : Bytes) → Packed values bytes → words bytes ≡ values
unfolding words
words-Packed [] bytes e = ap words e
words-Packed (v ∷ values) bytes (small, (more, e, packed)) =
    ap words e ∙ ap₂ (λ (w : ℕ) (ws : List ℕ). w ∷ ws) (word_of v) (words-Packed values more packed)

length-Packed :
    (values : List ℕ) (bytes : Bytes) → Packed values bytes → length bytes ≡ length values * 2
length-Packed [] bytes e = ap length e
length-Packed (v ∷ values) bytes (small, (more, e, packed)) =
    ap length e ∙ omega (arith, length-Packed values more packed)

-- The registers with values put in at a place.
abbrev replaced : List ℕ → ℕ → List ℕ → List ℕ
replaced regs start values = take start regs ++ (values ++ drop (start + length values) regs)

read_back :
    (regs : List ℕ) (start : ℕ) (values : List ℕ)
    → start ≤ length regs
    → take (length values) (drop start (replaced regs start values)) ≡ values
read_back regs start values le =
    ap (λ k. take (length values) (drop k (replaced regs start values)))
      (omega (arith, length-take start regs))
    ∙ ap (take (length values))
        (drop-append_self (take start regs) (values ++ drop (start + length values) regs))
    ∙ take-append_self values (drop (start + length values) regs)

length-replaced :
    (regs : List ℕ) (start : ℕ) (values : List ℕ)
    → start + length values ≤ length regs
    → length (replaced regs start values) ≡ length regs
length-replaced regs start values le = omega (
  arith,
  length-append (take start regs) (values ++ drop (start + length values) regs),
  length-append values (drop (start + length values) regs),
  length-take start regs,
  length-drop (start + length values) regs,
)

-- The requests for a block of registers.
abbrev pub write_request : ℕ → ℕ → ℕ → Bytes → Bytes
write_request start qty byte_count bytes =
    16 ∷ start / 256 ∷ start % 256 ∷ qty / 256 ∷ qty % 256 ∷ byte_count ∷ bytes

abbrev pub read_request : ℕ → ℕ → Bytes
read_request start qty = 3 ∷ start / 256 ∷ start % 256 ∷ qty / 256 ∷ qty % 256 ∷ []

writes_block :
    (regs : List ℕ) (start byte_count : ℕ) (values : List ℕ) (bytes : Bytes)
    → start + length values ≤ length regs
    → Packed values bytes
    → handle_pdu regs (write_request start (length values) byte_count bytes) ≡ (
      some (16 ∷ start / 256 ∷ start % 256 ∷ length values / 256 ∷ length values % 256 ∷ []),
      replaced regs start values,
    )
unfolding handle_pdu handle_block write_registers
writes_block regs start byte_count values bytes le packed =
    let size = length-Packed values bytes packed in
    rw
      (
        word_of start,
        word_of (length values),
        ge→ltb (length bytes) (length values * 2) (omega arith),
        ge→ltb (length regs) (start + length values) le,
        take-all (length values * 2) bytes (omega arith),
        words-Packed values bytes packed,
      )
      refl

reads_block :
    (regs : List ℕ) (start qty : ℕ) (values : List ℕ) (bytes : Bytes)
    → start + qty ≤ length regs
    → qty * 2 ≤ 255
    → take qty (drop start regs) ≡ values
    → Packed values bytes
    → handle_pdu regs (read_request start qty) ≡ (some (3 ∷ qty * 2 ∷ bytes), regs)
unfolding handle_pdu read_registers
reads_block regs start qty values bytes le small same packed =
    rw
      (
        word_of start,
        word_of qty,
        ge→ltb (length regs) (start + qty) le,
        ge→ltb 255 (qty * 2) small,
        same,
        pack-Packed values bytes packed,
      )
      refl

-- A block of values that is written with function code 16 is read with function code 3, while the
-- number of registers stays; this is so if the block lies in the registers, its values are below
-- 65536 and no more than 127, and the request's byte count is twice their number.
pub handle_pdu-handle_pdu :
    (regs : List ℕ) (start : ℕ) (values : List ℕ) (bytes : Bytes)
    → start + length values ≤ length regs
    → length values ≤ 127
    → Packed values bytes
    → ((handle_pdu
          (handle_pdu regs (write_request start (length values) (length values * 2) bytes)).1
          (read_request start (length values))).0
        ≡ some (3 ∷ length values * 2 ∷ bytes))
      × (length (handle_pdu regs (write_request start (length values) (length values * 2) bytes)).1
          ≡ length regs)
handle_pdu-handle_pdu regs start values bytes le few packed =
    let written = writes_block regs start (length values * 2) values bytes le packed in
    let fits : start + length values ≤ length (replaced regs start values) =
      omega (arith, length-replaced regs start values le) in
    (
      ap (λ (p : Option Bytes × List ℕ). (handle_pdu p.1 (read_request start (length values))).0)
            written
          ∙ ap (λ (p : Option Bytes × List ℕ). p.0)
              (reads_block (replaced regs start values) start (length values) values bytes fits
                (omega arith) (read_back regs start values (omega arith)) packed),
      ap (λ (p : Option Bytes × List ℕ). length p.1) written ∙ length-replaced regs start values le,
    )
