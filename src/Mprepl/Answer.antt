-- ===== src/Mprepl/Answer.antt =====
-- What src/io_core/mprepl.py makes of a board's printed answer to a read: `strip`, the quotes and
-- bytes.fromhex.
use ironharness.Prelude.{
  ℕ, ◌-◌, ◌≡◌, refl, ap, ◌∙◌, Bool, true, false, ◌&&◌, Option, none, some, [], ◌∷◌, ◌++◌, Bytes,
  length, take, drop, arith, take-append_self, drop-append_self, length-append, ◌==◌,
}
use ironharness.Prelude.Search.{starts_with, same_bytes}
use ironharness.Prelude.Hex.{hex, from_hex, from_hex-hex, AllBytes, Ascii, hex-Ascii}
use ironharness.Mprepl.{ok, space, lstrip, rstrip, strip, read_answer, parsed}

-- bytes as Python prints them, with the line's end.
unfoldable pub printed : Bytes → Bytes
printed part = 98 ∷ 39 ∷ (hex part ++ 39 ∷ 13 ∷ 10 ∷ [])

stays_whole :
    (d : ℕ) (text : Bytes) (c : ℕ) (rest : Bytes)
    → rstrip rest ≡ text ++ c ∷ []
    → rstrip (d ∷ rest) ≡ d ∷ (text ++ c ∷ [])
unfolding rstrip
stays_whole d [] c rest e = rw e refl
stays_whole d (x ∷ text) c rest e = rw e refl

rstrip_line :
    (text : Bytes) (c : ℕ) → space c ≡ false → rstrip (text ++ c ∷ 13 ∷ 10 ∷ []) ≡ text ++ c ∷ []
unfolding rstrip space
rstrip_line [] c e = rw e refl
rstrip_line (d ∷ text) c e = stays_whole d text c (text ++ c ∷ 13 ∷ 10 ∷ []) (rstrip_line text c e)

pub strip-printed : (part : Bytes) → strip (printed part) ≡ 98 ∷ 39 ∷ (hex part ++ 39 ∷ [])
unfolding strip lstrip printed space
strip-printed part = rstrip_line (98 ∷ 39 ∷ hex part) 39 refl

and_false : (b : Bool) → (b && false) ≡ false
and_false true = refl
and_false false = refl

-- The quotes of the answer.
quoted : (text : Bytes) → drop (length (text ++ 39 ∷ []) - 1) (text ++ 39 ∷ []) ≡ 39 ∷ []
quoted text =
    ap (λ k. drop k (text ++ 39 ∷ [])) (omega (arith, length-append text (39 ∷ [])))
    ∙ drop-append_self text (39 ∷ [])

inside : (text : Bytes) → take (length (98 ∷ 39 ∷ (text ++ 39 ∷ [])) - 3) (text ++ 39 ∷ []) ≡ text
inside text =
    ap (λ k. take k (text ++ 39 ∷ [])) (omega (arith, length-append text (39 ∷ [])))
    ∙ take-append_self text (39 ∷ [])

-- At the end of the file.
read_answer-end : read_answer (strip (printed [])) ≡ ok none
unfolding read_answer strip lstrip rstrip space printed hex same_bytes
read_answer-end = refl

-- Text between quotes that is not empty.
read_answer-quoted :
    (c d : ℕ) (text : Bytes)
    → read_answer (98 ∷ 39 ∷ c ∷ d ∷ (text ++ 39 ∷ [])) ≡ parsed (from_hex (c ∷ d ∷ text))
unfolding read_answer same_bytes starts_with
read_answer-quoted c d text =
    rw (and_false (c == 39), quoted (98 ∷ 39 ∷ c ∷ d ∷ text), inside (c ∷ d ∷ text)) refl

read_answer-part :
    (b : ℕ) (part : Bytes)
    → AllBytes (b ∷ part)
    → read_answer (strip (printed (b ∷ part))) ≡ ok (some (b ∷ part))
unfolding hex
read_answer-part b part bytes =
    ap read_answer (strip-printed (b ∷ part))
    ∙ read_answer-quoted _ _ (hex part)
    ∙ ap parsed (from_hex-hex (b ∷ part) bytes)

-- What a printed chunk says: an empty one is the end of the file.
abbrev pub said : Bytes → Option Bytes
said [] = none
said (b ∷ part) = some (b ∷ part)

pub read_answer-printed :
    (part : Bytes) → AllBytes part → read_answer (strip (printed part)) ≡ ok (said part)
read_answer-printed [] bytes = read_answer-end
read_answer-printed (b ∷ part) bytes = read_answer-part b part bytes

pub printed-Ascii : (part : Bytes) → AllBytes part → Ascii (printed part)
unfolding printed
printed-Ascii part bytes = (
  omega arith,
  (
    omega arith,
    hex-Ascii part (39 ∷ 13 ∷ 10 ∷ []) bytes (omega arith, (omega arith, (omega arith, tt))),
  ),
)
