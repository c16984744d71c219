-- ===== src/Runner/Box.antt =====
-- The retained output of a run: `_box_append` in `_run_unix` of src/ironbench/runner_unix.py.
use ironharness.Prelude.{
  ℕ, ◌+◌, ◌≤◌, ◌≡◌, refl, sym, ap, subst, ◌∙◌, Bool, true, false, [], ◌∷◌, ◌++◌, Bytes, length, ltb,
  if◌then◌else◌, if_ind, arith, append-nil, append_assoc, length-append, ltb→ge,
}
use ironharness.Prelude.Text.{codes, decimal}
use ironharness.Runner.Answer.{Chunks, text_of}

pub record Box : Type 0 where
  pub text : Bytes
  pub chunks : Chunks
  pub dropped : Bool

unfoldable pub empty_box : Box
empty_box = record { text = []; chunks = []; dropped = false }

unfoldable pub marker : ℕ → Bytes
marker cap =
    10
    ∷ (codes "[ironharness: serial output truncated at "
        ++ (decimal cap ++ (codes " bytes - further output discarded]" ++ 10 ∷ [])))

-- A chunk that comes at a time. The one that would pass the cap is discarded; of it, and of all that
-- come later, only the marker is kept.
unfoldable pub box_append : ℕ → ℕ × Bytes → Box → Box
box_append cap (t, chunk) box =
    if box.dropped
    then box
    else if ltb cap (length box.text + length chunk)
    then record {
      text = box.text ++ marker cap;
      chunks = box.chunks ++ (t, marker cap) ∷ [];
      dropped = true;
    }
    else record box { text = box.text ++ chunk; chunks = box.chunks ++ (t, chunk) ∷ [] }

unfoldable pub box_appends : ℕ → Chunks → Box → Box
box_appends cap [] box = box
box_appends cap (chunk ∷ chunks) box = box_appends cap chunks (box_append cap chunk box)

-- The text is that of the chunks, and bounded; until something was dropped it is within the cap and
-- holds all chunks that came.
pub record Consistent (cap : ℕ) (came : Chunks) (box : Box) : Type 0 where
  pub in_step : box.text ≡ text_of box.chunks
  pub bounded : length box.text ≤ cap + length (marker cap)
  pub within : box.dropped ≡ false → length box.text ≤ cap
  pub whole : box.dropped ≡ false → box.chunks ≡ came

text_of-snoc :
    (chunks : Chunks) (t : ℕ) (chunk : Bytes)
    → text_of (chunks ++ (t, chunk) ∷ []) ≡ text_of chunks ++ chunk
unfolding text_of
text_of-snoc [] t chunk = append-nil chunk
text_of-snoc ((t', chunk') ∷ chunks) t chunk =
    ap (λ (x : Bytes). chunk' ++ x) (text_of-snoc chunks t chunk)
    ∙ sym (append_assoc chunk' (text_of chunks) chunk)

box_append-Consistent :
    (cap t : ℕ) (chunk : Bytes) (came : Chunks) (box : Box)
    → Consistent cap came box
    → Consistent cap (came ++ (t, chunk) ∷ []) (box_append cap (t, chunk) box)
unfolding box_append
box_append-Consistent cap t chunk came box c =
    if_ind P box.dropped
      (λ e. record {
        in_step = c.in_step;
        bounded = c.bounded;
        within = c.within;
        whole = λ e'. cc (e, e');
      })
      λ e.
        if_ind P (ltb cap (length box.text + length chunk))
          (λ full. record {
            in_step =
                ap (λ (x : Bytes). x ++ marker cap) c.in_step
                ∙ sym (text_of-snoc box.chunks t (marker cap));
            bounded = omega (arith, c.within e, length-append box.text (marker cap));
            within = λ e'. cc e';
            whole = λ e'. cc e';
          })
          λ fits. record {
            in_step =
                ap (λ (x : Bytes). x ++ chunk) c.in_step ∙ sym (text_of-snoc box.chunks t chunk);
            bounded = omega (
              arith,
              ltb→ge cap (length box.text + length chunk) fits,
              length-append box.text chunk,
            );
            within = λ e'. omega (
              arith,
              ltb→ge cap (length box.text + length chunk) fits,
              length-append box.text chunk,
            );
            whole = λ e'. ap (λ (x : Chunks). x ++ (t, chunk) ∷ []) (c.whole e);
          }
  where
    P : Box → Type 0
    P = Consistent cap (came ++ (t, chunk) ∷ [])

box_appends-kept :
    (cap : ℕ) (chunks came : Chunks) (box : Box)
    → Consistent cap came box
    → Consistent cap (came ++ chunks) (box_appends cap chunks box)
unfolding box_appends
box_appends-kept cap [] came box c =
    subst (λ (x : Chunks). Consistent cap x box) (sym (append-nil came)) c
box_appends-kept cap ((t, chunk) ∷ chunks) came box c =
    subst
      (λ (x : Chunks). Consistent cap x (box_appends cap chunks (box_append cap (t, chunk) box)))
      (append_assoc came ((t, chunk) ∷ []) chunks)
      (box_appends-kept cap chunks (came ++ (t, chunk) ∷ []) (box_append cap (t, chunk) box)
        (box_append-Consistent cap t chunk came box c))

-- Whatever chunks come: the text is that of the retained chunks, in their order, and is at most the
-- cap and the marker long; and as long as nothing was dropped it is within the cap and every chunk
-- is retained.
pub box_appends-Consistent :
    (cap : ℕ) (chunks : Chunks) → Consistent cap chunks (box_appends cap chunks empty_box)
unfolding empty_box text_of
box_appends-Consistent cap chunks =
    box_appends-kept cap chunks [] empty_box (record {
      in_step = refl;
      bounded = omega arith;
      within = λ e. omega arith;
      whole = λ e. refl;
    })
