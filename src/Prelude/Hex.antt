-- ===== src/Prelude/Hex.antt =====
-- `bytes.hex()` and `bytes.fromhex()`. A text is the list of its code points.
use ironharness.Prelude.Tests.{leb, ltb, ◌==◌, if◌then◌else◌}
use ironharness.Prelude.Lists.{Bytes, length, take, drop}
use Prim.Native.Nat.{ℕ, zero, suc, ◌+◌, ◌-◌, ◌*◌, ◌/◌, ◌%◌, ◌<◌}
use mathlib.Core.Path.{◌≡◌, refl, ap}
use mathlib.Core.Bool.{Bool, false, ◌&&◌, ◌||◌}
use mathlib.Core.Option.{Option, none, some}
use mathlib.Core.List.{[], ◌∷◌, ◌++◌}
use native.Mathlib.Omega.{arith}

-- A digit 0..15 as a lower-case character.
digit : ℕ → ℕ
digit d = if ltb d 10 then 48 + d else 87 + d

-- 0-9, a-f, A-F
digit_value : ℕ → Option ℕ
digit_value c =
    if leb 48 c && leb c 57
    then some (c - 48)
    else if leb 97 c && leb c 102
    then some (c - 87)
    else if leb 65 c && leb c 70
    then some (c - 55)
    else none

-- ASCII whitespace, which `fromhex` skips between bytes.
is_space : ℕ → Bool
is_space c = c == 32 || (leb 9 c && leb c 13)

unfoldable pub hex : Bytes → Bytes
unfolding digit
hex [] = []
hex (b ∷ bs) = digit (b / 16) ∷ digit (b % 16) ∷ hex bs

abbrev pair : Option ℕ → Option ℕ → Option Bytes → Option Bytes
pair (some hi) (some lo) (some rest) = some ((hi * 16 + lo) ∷ rest)
pair _ _ _ = none

-- `none` is the source's ValueError.
unfoldable pub from_hex : Bytes → Option Bytes
unfolding digit_value is_space
from_hex [] = some []
from_hex (c ∷ []) = if is_space c then some [] else none
from_hex (c ∷ d ∷ rest) =
    let next = from_hex (d ∷ rest) in
    let byte = pair (digit_value c) (digit_value d) (from_hex rest) in
    if is_space c then next else byte

digit_value-digit : (d : ℕ) → d < 16 → digit_value (digit d) ≡ some d
unfolding digit_value digit
digit_value-digit d h = ground arith

is_space-digit : (d : ℕ) → d < 16 → is_space (digit d) ≡ false
unfolding is_space digit
is_space-digit d h = ground arith

abbrev pub AllBytes : Bytes → Type 0
AllBytes [] = Unit {0}
AllBytes (b ∷ bs) = (b < 256) × AllBytes bs

pub from_hex-hex : (bs : Bytes) → AllBytes bs → from_hex (hex bs) ≡ some bs
unfolding hex from_hex
from_hex-hex [] h = refl
from_hex-hex (b ∷ bs) h =
    rw
      (
        is_space-digit (b / 16) (omega arith),
        digit_value-digit (b / 16) (omega arith),
        digit_value-digit (b % 16) (omega arith),
        from_hex-hex bs h.1,
      )
      (ap (λ (c : ℕ). some (c ∷ bs)) (omega arith))

abbrev pub Ascii : Bytes → Type 0
Ascii [] = Unit {0}
Ascii (b ∷ bs) = (b < 128) × Ascii bs

digit-Ascii : (d : ℕ) → d < 16 → digit d < 128
unfolding digit
digit-Ascii d h = ground arith

pub hex-Ascii : (bs rest : Bytes) → AllBytes bs → Ascii rest → Ascii (hex bs ++ rest)
unfolding hex
hex-Ascii [] rest h a = a
hex-Ascii (b ∷ bs) rest (small, h) a = (
  digit-Ascii (b / 16) (omega arith),
  (digit-Ascii (b % 16) (omega arith), hex-Ascii bs rest h a),
)

pub take-AllBytes : (n : ℕ) (bs : Bytes) → AllBytes bs → AllBytes (take n bs)
take-AllBytes zero bs h = tt
take-AllBytes (suc n) [] h = tt
take-AllBytes (suc n) (b ∷ bs) (small, h) = (small, take-AllBytes n bs h)

pub drop-AllBytes : (n : ℕ) (bs : Bytes) → AllBytes bs → AllBytes (drop n bs)
drop-AllBytes zero bs h = h
drop-AllBytes (suc n) [] h = tt
drop-AllBytes (suc n) (b ∷ bs) (small, h) = drop-AllBytes n bs h

pub length-hex : (bs : Bytes) → length (hex bs) ≡ 2 * length bs
unfolding hex
length-hex [] = refl
length-hex (b ∷ bs) = omega (arith, length-hex bs)

-- A digit is printable.
digit_range : (d : ℕ) → 47 < digit d
unfolding digit
digit_range d = ground arith

pub hex-printable :
    (b : ℕ) (bs : Bytes) → (c d : ℕ) × (hex (b ∷ bs) ≡ c ∷ d ∷ hex bs) × (47 < c) × (47 < d)
unfolding hex
hex-printable b bs =
    (digit (b / 16), digit (b % 16), refl, digit_range (b / 16), digit_range (b % 16))
