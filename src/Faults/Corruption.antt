-- ===== src/Faults/Corruption.antt =====
-- Corruption changes bytes, never the length of a text.
use ironharness.Prelude.{ℕ, zero, suc, ◌≡◌, refl, ap, ◌∙◌, List, [], ◌∷◌, Bytes, length}
use ironharness.Faults.{flip_at, flips, corrupted}

flip_at-length : (pos bit : ℕ) (text : Bytes) → length (flip_at pos bit text) ≡ length text
unfolding flip_at
flip_at-length pos bit [] = refl
flip_at-length zero bit (b ∷ bs) = refl
flip_at-length (suc pos) bit (b ∷ bs) = ap suc (flip_at-length pos bit bs)

module _ {G : Type 0} (random : G → ℕ × G) (sample : ℕ → ℕ → G → List ℕ × G)
    (randrange : ℕ → G → ℕ × G) where
  flips-length :
      (positions : List ℕ) (text : Bytes) (g : G)
      → length (flips random sample randrange positions text g).0 ≡ length text
  unfolding flips
  flips-length [] text g = refl
  flips-length (pos ∷ positions) text g =
      let (bit, g') = randrange 8 g in
      flips-length positions (flip_at pos bit text) g' ∙ flip_at-length pos bit text

  -- Whatever the generator gives, `_corrupt` keeps the length of the text.
  corrupted-length :
      (text : Bytes) (ratio : ℕ) (g : G)
      → length (corrupted random sample randrange text ratio g).0 ≡ length text
  unfolding corrupted
  corrupted-length [] ratio g = refl
  corrupted-length (b ∷ bs) zero g = refl
  corrupted-length (b ∷ bs) (suc ratio) g = flips-length _ (b ∷ bs) _
