-- ===== src/Prelude/Search.antt =====
-- `bytes.find` and `in` of Python on byte strings: the first place where a needle stands.
use ironharness.Prelude.Tests.{
  ◌==◌, if◌then◌else◌, ==_iff, Bool-cases, if_true, if_false, ltb, ltb→lt, ltb→ge,
}
use ironharness.Prelude.Lists.{
  Bytes, length, take, drop, drop-nil, take-add, length-drop, drop-drop, drop-append_le,
}
use Prim.Native.Nat.{ℕ, zero, suc, ◌+◌, ◌-◌, ◌≤◌, ◌<◌}
use mathlib.Core.Path.{◌≡◌, refl, ap, subst, sym, ◌∙◌}
use mathlib.Core.Logic.{inl, inr}
use mathlib.Core.Bool.{Bool, true, false, ◌&&◌}
use mathlib.Core.Option.{Option, none, some}
use mathlib.Core.List.{[], ◌∷◌, ◌++◌}
use native.Mathlib.Omega.{arith}

unfoldable pub starts_with : Bytes → Bytes → Bool
starts_with [] h = true
starts_with (n ∷ ns) [] = false
starts_with (n ∷ ns) (x ∷ h) = n == x && starts_with ns h

abbrev pub shift : Option ℕ → Option ℕ
shift none = none
shift (some p) = some (suc p)

-- h.find(n): the least p such that h[p:] starts with n; `none` is the source's -1.
unfoldable pub find : Bytes → Bytes → Option ℕ
find n [] = if starts_with n [] then some 0 else none
find n (x ∷ h) = let rest = shift (find n h) in if starts_with n (x ∷ h) then some 0 else rest

-- n in h
unfoldable pub contains : Bytes → Bytes → Bool
unfolding find
contains n h = elim (find n h) [ none ↦ false | some _ ↦ true ]

pub starts_with-take :
    (n h : Bytes) → starts_with n h ≡ true → (take (length n) h ≡ n) × (length n ≤ length h)
unfolding starts_with
starts_with-take [] h e = (refl, omega arith)
starts_with-take (n ∷ ns) [] e = cc
starts_with-take (n ∷ ns) (x ∷ h) e = ground (arith, ==_iff n x, starts_with-take ns h)

pub starts_with-append : (n h : Bytes) → starts_with n (n ++ h) ≡ true
unfolding starts_with
starts_with-append [] h = refl
starts_with-append (n ∷ ns) h = ground (arith, starts_with-append ns h)

-- What `find` promises: the needle stands at the answer and nowhere before it, or nowhere at all.
abbrev pub FoundAt : Bytes → Bytes → Option ℕ → Type 0
FoundAt n h none = (q : ℕ) → starts_with n (drop q h) ≡ false
FoundAt n h (some p) =
    (starts_with n (drop p h) ≡ true) × ((q : ℕ) → q < p → starts_with n (drop q h) ≡ false)

FoundAt-shift :
    (n h : Bytes) (x : ℕ) (o : Option ℕ)
    → starts_with n (x ∷ h) ≡ false
    → FoundAt n h o
    → FoundAt n (x ∷ h) (shift o)
FoundAt-shift n h x none e f = nowhere
  where
    nowhere : (q : ℕ) → starts_with n (drop q (x ∷ h)) ≡ false
    nowhere zero = e
    nowhere (suc q) = f q
FoundAt-shift n h x (some p) e f = (f.0, before)
  where
    before : (q : ℕ) → q < suc p → starts_with n (drop q (x ∷ h)) ≡ false
    before zero lt = e
    before (suc q) lt = f.1 q (omega arith)

pub find-FoundAt : (n h : Bytes) → FoundAt n h (find n h)
unfolding find
find-FoundAt n [] = elim (Bool-cases (starts_with n [])) [
  | inl e ↦ rw (e, find) (e, λ q lt. absurd (omega arith))
  | inr e ↦ rw (e, find) (λ q. rw drop-nil e)
]
find-FoundAt n (x ∷ h) = elim (Bool-cases (starts_with n (x ∷ h))) [
  | inl e ↦ rw (e, find) (e, λ q lt. absurd (omega arith))
  | inr e ↦ rw (e, find) (FoundAt-shift n h x (find n h) e (find-FoundAt n h))
]

fits_in : (n h : Bytes) (p : ℕ) → FoundAt n h (some p) → p + length n ≤ length h
unfolding starts_with
fits_in [] h zero f = omega arith
fits_in [] h (suc p) f = cc (f.1 0 (omega arith))
fits_in (a ∷ n) h p f = omega (arith, (starts_with-take (a ∷ n) (drop p h) f.0).1, length-drop p h)

-- A hit lies inside the text, and the text up to its end ends with the needle.
pub find-split :
    (n h : Bytes) (p : ℕ)
    → find n h ≡ some p
    → (take (p + length n) h ≡ take p h ++ n) × (p + length n ≤ length h)
find-split n h p e = (
  take-add p (length n) h ∙ ap (◌++◌ (take p h)) (starts_with-take n (drop p h) found.0).0,
  fits_in n h p found,
)
  where
    found : FoundAt n h (some p)
    found = subst (FoundAt n h) e (find-FoundAt n h)

starts_with-longer :
    (n h g : Bytes) → length n ≤ length h → starts_with n (h ++ g) ≡ starts_with n h
unfolding starts_with
starts_with-longer [] h g le = refl
starts_with-longer (a ∷ n) [] g le = absurd (omega arith)
starts_with-longer (a ∷ n) (x ∷ h) g le =
    ap (◌&&◌ (a == x)) (starts_with-longer n h g (omega arith))

shift-some : (o : Option ℕ) (p : ℕ) → shift o ≡ some p → (q : ℕ) × (o ≡ some q) × (p ≡ suc q)
shift-some none p e = cc
shift-some (some q) p e = (q, refl, cc)

-- A hit stays where it is when the text goes on.
pub find-longer : (n h g : Bytes) (p : ℕ) → find n h ≡ some p → find n (h ++ g) ≡ some p
unfolding find starts_with
find-longer [] [] [] p e = e
find-longer [] [] (y ∷ g) p e = e
find-longer (a ∷ n) [] g p e = cc
find-longer n (x ∷ h) g p e = elim (Bool-cases (starts_with n (x ∷ h))) [
  | inl hit ↦
      let same = starts_with-longer n (x ∷ h) g (starts_with-take n (x ∷ h) hit).1 in
      rw (same ∙ hit) (sym (if_true (some 0) (shift (find n h)) hit) ∙ e)
  | inr miss ↦
      let (q, hit, next) =
        shift-some (find n h) p (sym (if_false (some 0) (shift (find n h)) miss) ∙ e) in
      let fits = (find-split n (x ∷ h) p e).1 in
      let same = starts_with-longer n (x ∷ h) g (omega arith) in
      rw (same ∙ miss, find-longer n h g q hit, next) refl
]

pub contains-nil : (b : ℕ) (n : Bytes) → contains (b ∷ n) [] ≡ false
unfolding contains find starts_with
contains-nil b n = refl

-- `in` holds exactly where some place has a hit.
pub contains-hit : (n h : Bytes) (q : ℕ) → starts_with n (drop q h) ≡ true → contains n h ≡ true
unfolding contains
contains-hit n h q hit = settled (find n h) (find-FoundAt n h)
  where
    settled : (o : Option ℕ) → FoundAt n h o → (elim o [ none ↦ false | some _ ↦ true ]) ≡ true
    settled none nowhere = cc (nowhere q, hit)
    settled (some p) found = refl

pub hit-contains : (n h : Bytes) → contains n h ≡ true → (q : ℕ) × (starts_with n (drop q h) ≡ true)
unfolding contains
hit-contains n h e = settled (find n h) (find-FoundAt n h) e
  where
    settled :
        (o : Option ℕ)
        → FoundAt n h o
        → (elim o [ none ↦ false | some _ ↦ true ]) ≡ true
        → (q : ℕ) × (starts_with n (drop q h) ≡ true)
    settled none nowhere e' = cc e'
    settled (some p) found e' = (p, found.0)

from_iff : (a b : Bool) → (a ≡ true → b ≡ true) → (b ≡ true → a ≡ true) → a ≡ b
from_iff true b f g = sym (f refl)
from_iff false true f g = g refl
from_iff false false f g = refl

-- A hit that ends in the first part of a text.
hit_before :
    (n h g : Bytes) (q : ℕ)
    → q + length n ≤ length h
    → starts_with n (drop q (h ++ g)) ≡ true
    → contains n h ≡ true
hit_before n h g q le hit = contains-hit n h q (
    sym (starts_with-longer n (drop q h) g (omega (arith, length-drop q h)))
    ∙ ap (starts_with n) (sym (drop-append_le q h g (omega arith)))
    ∙ hit)

-- Where the text so far has no hit, a search in the longer text may leave out every place from
-- which the needle ends inside the text so far.
pub contains-from :
    (n h g : Bytes)
    → contains n h ≡ false
    → contains n (drop (length h + 1 - length n) (h ++ g)) ≡ contains n (h ++ g)
contains-from n h g clean = from_iff _ _ there back
  where
    start : ℕ
    start = length h + 1 - length n

    there : contains n (drop start (h ++ g)) ≡ true → contains n (h ++ g) ≡ true
    there e =
        let (q, hit) = hit-contains n (drop start (h ++ g)) e in
        contains-hit n (h ++ g) (start + q)
          (ap (starts_with n) (sym (drop-drop q start (h ++ g))) ∙ hit)

    back : contains n (h ++ g) ≡ true → contains n (drop start (h ++ g)) ≡ true
    back e =
        let (q, hit) = hit-contains n (h ++ g) e in
        elim (Bool-cases (ltb q start)) [
          | inl before ↦ cc (hit_before n h g q (omega (arith, ltb→lt q start before)) hit, clean)
          | inr from ↦ contains-hit n (drop start (h ++ g)) (q - start) (
              ap (starts_with n) (
                drop-drop (q - start) start (h ++ g)
                ∙ ap (λ k. drop k (h ++ g)) (omega (arith, ltb→ge q start from)))
              ∙ hit)
        ]

-- A value does not stand in a text.
abbrev pub Absent : ℕ → Bytes → Type 0
Absent c [] = Unit {0}
Absent c (x ∷ text) = ((c == x) ≡ false) × Absent c text

pub find-first :
    (c : ℕ) (piece more : Bytes)
    → Absent c piece
    → find (c ∷ []) (piece ++ c ∷ more) ≡ some (length piece)
unfolding find starts_with
find-first c [] more a = ground arith
find-first c (x ∷ piece) more (differs, a) = rw (differs, find-first c piece more a) refl

-- a == b on byte strings
unfoldable pub same_bytes : Bytes → Bytes → Bool
same_bytes [] [] = true
same_bytes [] (y ∷ b) = false
same_bytes (x ∷ a) [] = false
same_bytes (x ∷ a) (y ∷ b) = x == y && same_bytes a b

pub same_bytes→eq : (a b : Bytes) → same_bytes a b ≡ true → a ≡ b
unfolding same_bytes
same_bytes→eq [] [] e = refl
same_bytes→eq [] (y ∷ b) e = cc
same_bytes→eq (x ∷ a) [] e = cc
same_bytes→eq (x ∷ a) (y ∷ b) e = ground (arith, same_bytes→eq a b)

pub same_bytes_refl : (a : Bytes) → same_bytes a a ≡ true
unfolding same_bytes
same_bytes_refl [] = refl
same_bytes_refl (x ∷ a) = ground (arith, same_bytes_refl a)
