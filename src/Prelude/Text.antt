-- ===== src/Prelude/Text.antt =====
-- Texts as lists of code points: literals, `str.strip` and `str.split`.
use Prim.Native.Char.{code}
use Prim.Native.Nat.{ℕ, zero, suc, ◌+◌, ◌/◌, ◌%◌}
use Prim.Native.String.{String}
use ironharness.Prelude.Tests.{leb, ◌==◌, if◌then◌else◌, ==_iff}
use ironharness.Prelude.Lists.{Bytes}
use ironharness.Prelude.Search.{Absent}
use mathlib.Core.Path.{◌≡◌, refl, ap, ◌∙◌}
use mathlib.Core.Bool.{Bool, ◌&&◌, ◌||◌}
use mathlib.Core.List.{List, [], ◌∷◌, ◌++◌}
use native.Mathlib.Omega.{arith}

-- The code points of a literal.
abbrev pub codes : String → Bytes
codes String.[] = []
codes (String.◌∷◌ c s) = code c ∷ codes s

unfoldable pub space : ℕ → Bool
space c =
    (leb 9 c && leb c 13)
    || (leb 28 c && leb c 32)
    || c == 133
    || c == 160
    || c == 5760
    || (leb 8192 c && leb c 8202)
    || c == 8232
    || c == 8233
    || c == 8239
    || c == 8287
    || c == 12288

unfoldable pub lstrip : Bytes → Bytes
lstrip [] = []
lstrip (c ∷ text) = if space c then lstrip text else c ∷ text

unfoldable pub rstrip : Bytes → Bytes
rstrip [] = []
rstrip (c ∷ text) =
    let rest = rstrip text in
    elim rest [ [] ↦ if space c then [] else c ∷ [] | d ∷ more ↦ c ∷ d ∷ more ]

unfoldable pub strip : Bytes → Bytes
strip text = rstrip (lstrip text)

-- A character in front of the first of several texts.
abbrev pub push : ℕ → List Bytes → List Bytes
push c [] = (c ∷ []) ∷ []
push c (text ∷ texts) = (c ∷ text) ∷ texts

-- s.split(sep)
unfoldable pub split_by : ℕ → Bytes → List Bytes
split_by sep [] = [] ∷ []
split_by sep (c ∷ cs) = let rest = split_by sep cs in if sep == c then [] ∷ rest else push c rest

-- sep.join(texts)
unfoldable pub join_by : ℕ → Bytes → List Bytes → Bytes
join_by sep text [] = text
join_by sep text (next ∷ more) = text ++ sep ∷ join_by sep next more

digits : ℕ → ℕ → Bytes
digits zero n = (48 + n % 10) ∷ []
digits (suc fuel) n =
    let front = digits fuel (n / 10) in
    if leb n 9 then (48 + n) ∷ [] else front ++ (48 + n % 10) ∷ []

-- str(n): n has at most n digits, or is 0.
unfoldable pub decimal : ℕ → Bytes
unfolding digits
decimal n = digits n n

split_by-last : (sep : ℕ) (text : Bytes) → Absent sep text → split_by sep text ≡ text ∷ []
unfolding split_by
split_by-last sep [] a = refl
split_by-last sep (c ∷ text) (differs, a) = rw differs (ap (push c) (split_by-last sep text a))

split_by-first :
    (sep : ℕ) (text rest : Bytes)
    → Absent sep text
    → split_by sep (text ++ sep ∷ rest) ≡ text ∷ split_by sep rest
unfolding split_by
split_by-first sep [] rest a = ground (arith, ==_iff sep sep)
split_by-first sep (c ∷ text) rest (differs, a) =
    rw differs (ap (push c) (split_by-first sep text rest a))

abbrev pub AllAbsent : ℕ → List Bytes → Type 0
AllAbsent sep [] = Unit {0}
AllAbsent sep (text ∷ texts) = Absent sep text × AllAbsent sep texts

pub split_by-join_by :
    (sep : ℕ) (text : Bytes) (texts : List Bytes)
    → AllAbsent sep (text ∷ texts)
    → split_by sep (join_by sep text texts) ≡ text ∷ texts
unfolding join_by
split_by-join_by sep text [] (a, more) = split_by-last sep text a
split_by-join_by sep text (next ∷ texts) (a, more) =
    split_by-first sep text (join_by sep next texts) a
    ∙ ap (◌∷◌ text) (split_by-join_by sep next texts more)
