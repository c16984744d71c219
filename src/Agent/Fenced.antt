-- ===== src/Agent/Fenced.antt =====
-- The code of an answer with one fenced block.
use ironharness.Prelude.{
  ℕ, zero, suc, ◌+◌, ◌≤◌, ◌≡◌, refl, sym, ap, ap₂, ◌-◌, ◌∙◌, Bool, false, ◌&&◌, ◌==◌, Option, none,
  some, List, [], ◌∷◌, ◌++◌, Bytes, length, drop, if◌then◌else◌, if_false, arith, length-append,
  take-append_self, drop-append_ge,
}
use ironharness.Prelude.Search.{find, shift, starts_with, Absent}
use ironharness.Prelude.Text.{codes, space, strip, rstrip, lstrip}
use ironharness.Agent.Code.{
  cut, fence, found, or_else, lower, last_block, skip_language, behind_line, until_fence, block_at,
  blocks, last_of, with_line_feed, extract_code,
}

no_fence : (c : ℕ) (cs : Bytes) → (96 == c) ≡ false → starts_with fence (c ∷ cs) ≡ false
unfolding starts_with
no_fence c cs is = ap (λ (b : Bool). b && starts_with (96 ∷ 96 ∷ []) cs) is

find-fence :
    (code post : Bytes) → Absent 96 code → find fence (code ++ (fence ++ post)) ≡ some (length code)
unfolding find starts_with
find-fence [] post free = refl
find-fence (c ∷ cs) post (is, free) =
    if_false (some 0) _ (no_fence c (cs ++ (fence ++ post)) is) ∙ ap shift (find-fence cs post free)

no_block_at : (c : ℕ) (cs : Bytes) → (96 == c) ≡ false → block_at (c ∷ cs) ≡ none
unfolding block_at
no_block_at c cs is = if_false _ none (no_fence c cs is)

skip_char :
    (fuel c : ℕ) (cs : Bytes) → (96 == c) ≡ false → blocks (suc fuel) (c ∷ cs) ≡ blocks fuel cs
unfolding blocks
skip_char fuel c cs is =
    ap (λ (o : Option (Bytes × Bytes)). found o (blocks fuel cs) (blocks fuel))
      (no_block_at c cs is)

take_block :
    (fuel c : ℕ) (cs block rest : Bytes)
    → block_at (c ∷ cs) ≡ some (block, rest)
    → blocks (suc fuel) (c ∷ cs) ≡ block ∷ blocks fuel rest
unfolding blocks
take_block fuel c cs block rest e =
    ap (λ (o : Option (Bytes × Bytes)). found o (blocks fuel cs) (blocks fuel)) e

-- The text in front of a block is passed over.
blocks_behind :
    (pre rest : Bytes) (fuel left : ℕ)
    → Absent 96 pre
    → fuel ≡ length pre + left
    → blocks fuel (pre ++ rest) ≡ blocks left rest
blocks_behind [] rest fuel left free e = ap (λ (n : ℕ). blocks n rest) (omega (arith, e))
blocks_behind (c ∷ pre) rest zero left free e = absurd (omega (arith, e))
blocks_behind (c ∷ pre) rest (suc fuel) left (is, free) e =
    skip_char fuel c (pre ++ rest) is ∙ blocks_behind pre rest fuel left free (omega (arith, e))

no_blocks : (fuel : ℕ) (text : Bytes) → Absent 96 text → length text ≤ fuel → blocks fuel text ≡ []
unfolding blocks
no_blocks zero [] free le = refl
no_blocks (suc fuel) [] free le = refl
no_blocks zero (c ∷ cs) free le = absurd (omega (arith, le))
no_blocks (suc fuel) (c ∷ cs) (is, free) le =
    skip_char fuel c cs is ∙ no_blocks fuel cs free (omega (arith, le))

-- The fence in front, with the language and a line feed.
abbrev pub opening : Bytes
opening = codes "```python" ++ 10 ∷ []

behind_spaceless : (c : ℕ) (cs : Bytes) → space c ≡ false → behind_line (c ∷ cs) ≡ none
unfolding behind_line
behind_spaceless c cs e = if_false _ none e

behind_opening : (c : ℕ) (cs : Bytes) → space c ≡ false → behind_line (10 ∷ c ∷ cs) ≡ some (c ∷ cs)
unfolding behind_line space
behind_opening c cs e =
    ap (λ (o : Option Bytes). or_else o (some (c ∷ cs))) (behind_spaceless c cs e)

until_fence-code :
    (code post : Bytes)
    → Absent 96 code
    → until_fence (some (code ++ (fence ++ post))) ≡ some (code, post)
unfolding until_fence
until_fence-code code post free =
    let text = code ++ (fence ++ post) in
    ap (cut text) (find-fence code post free)
    ∙ ap₂ (λ (a b : Bytes). some (a, b)) (take-append_self code (fence ++ post))
        (drop-append_ge (length code + 3) code (fence ++ post) (omega arith)
          ∙ ap (λ (n : ℕ). drop n (fence ++ post)) three)
  where
    three : length code + 3 - length code ≡ 3
    three = omega arith

block_at-opening :
    (c : ℕ) (cs post : Bytes)
    → space c ≡ false
    → Absent 96 (c ∷ cs)
    → block_at (opening ++ ((c ∷ cs) ++ (fence ++ post))) ≡ some (c ∷ cs, post)
unfolding block_at starts_with skip_language lower
block_at-opening c cs post e free =
    ap until_fence (behind_opening c (cs ++ (fence ++ post)) e)
    ∙ until_fence-code (c ∷ cs) post free

-- What is left of a text that begins with no white space, without the white space at its end.
rstrip-kept :
    (c : ℕ) (cs : Bytes)
    → space c ≡ false
    → with_line_feed (rstrip (c ∷ cs)) ≡ some (rstrip (c ∷ cs) ++ 10 ∷ [])
unfolding rstrip
rstrip-kept c cs e = by_rest (rstrip cs)
  where
    kept : Bytes → Bytes
    kept r = elim r [ [] ↦ if space c then [] else c ∷ [] | d ∷ more ↦ c ∷ d ∷ more ]

    by_rest : (r : Bytes) → with_line_feed (kept r) ≡ some (kept r ++ 10 ∷ [])
    by_rest [] =
        ap with_line_feed (if_false [] (c ∷ []) e)
        ∙ ap (λ (t : Bytes). some (t ++ 10 ∷ [])) (sym (if_false [] (c ∷ []) e))
    by_rest (d ∷ more) = refl

strip-kept : (c : ℕ) (cs : Bytes) → space c ≡ false → strip (c ∷ cs) ≡ rstrip (c ∷ cs)
unfolding strip lstrip
strip-kept c cs e = ap rstrip (if_false (lstrip cs) (c ∷ cs) e)

-- In an answer with one block marked as python, whose code begins with no white space, and with no
-- backtick but those of the two fences, extract_code finds the code without the white space at its
-- end, and a line feed.
pub extract_code-fenced :
    (pre post cs : Bytes) (c : ℕ)
    → Absent 96 pre
    → Absent 96 (c ∷ cs)
    → Absent 96 post
    → space c ≡ false
    → extract_code (pre ++ (opening ++ ((c ∷ cs) ++ (fence ++ post))))
      ≡ some (rstrip (c ∷ cs) ++ 10 ∷ [])
unfolding extract_code last_of
extract_code-fenced pre post cs c no_pre no_code no_post e =
    let rest = opening ++ ((c ∷ cs) ++ (fence ++ post)) in
    ap last_block (
      blocks_behind pre rest (length (pre ++ rest)) (length rest) no_pre (length-append pre rest)
      ∙ (take_block _ _ _ (c ∷ cs) post (block_at-opening c cs post e no_code)
          ∙ ap (λ (more : List Bytes). (c ∷ cs) ∷ more)
              (no_blocks _ post no_post (omega (arith, length-append cs (fence ++ post))))))
    ∙ (ap with_line_feed (strip-kept c cs e) ∙ rstrip-kept c cs e)
