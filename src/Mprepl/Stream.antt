-- ===== src/Mprepl/Stream.antt =====
-- The stream of src/io_core/mprepl.py: what `until` answers does not depend on how the board's text
-- is cut into chunks.
use ironharness.Prelude.{
  ℕ, ◌+◌, ◌≤◌, ◌≡◌, refl, sym, ap, subst, some, List, [], ◌∷◌, ◌++◌, Bytes, length, take, drop,
  arith, map, Option-cases, inl, inr, append_assoc, append-nil, length-append, take-append_le,
  drop-append_le, ltb, ge→ltb, false,
}
use ironharness.Prelude.Search.{find, find-longer, find-split}
use ironharness.Mprepl.{Arrivals, Result, ok, until_from, max_stream_buf}

abbrev pub joined : List Bytes → Bytes
joined [] = []
joined (chunk ∷ later) = chunk ++ joined later

-- The terminator stands at p of the text, which is no longer than the buffer may be.
abbrev pub Ends : Bytes → Bytes → ℕ → Type 0
Ends terminator text p = (find terminator text ≡ some p) × (length text ≤ max_stream_buf)

abbrev pub Cut : Bytes → Bytes → ℕ → Result Bytes × Bytes × Arrivals → Type 0
Cut terminator text p (r, buf, pending) =
    (chunks : List Bytes) × (r ≡ ok (take p text))
    × (pending ≡ map some chunks)
    × (buf ++ joined chunks ≡ drop (p + length terminator) text)

-- The terminator is in the buffer already: the rest of the stream stays unread.
in_buffer :
    (terminator buf : Bytes) (chunks : List Bytes) (p q : ℕ)
    → find terminator buf ≡ some q
    → find terminator (buf ++ joined chunks) ≡ some p
    → Cut terminator
        (buf ++ joined chunks)
        p
        (ok (take q buf), drop (q + length terminator) buf, map some chunks)
in_buffer terminator buf chunks p q here e =
    let fits = (find-split terminator buf q here).1 in
    let same : q ≡ p = cc (find-longer terminator buf (joined chunks) q here) in
    subst
      (λ (k : ℕ).
        Cut terminator (buf ++ joined chunks) k
          (ok (take q buf), drop (q + length terminator) buf, map some chunks))
      same
      (
        chunks,
        ap ok (sym (take-append_le q buf (joined chunks) (omega arith))),
        refl,
        sym (drop-append_le (q + length terminator) buf (joined chunks) fits),
      )

-- `until` on a stream whose chunks are all on time, with the terminator in it for the first time at
-- p and no more text than the buffer may hold: it answers with the text before p, however the text
-- is cut into chunks, and buffer and unread chunks together hold exactly the text behind the
-- terminator.
pub until_from-Cut :
    (terminator buf : Bytes) (chunks : List Bytes) (p : ℕ)
    → Ends terminator (buf ++ joined chunks) p
    → Cut terminator (buf ++ joined chunks) p (until_from terminator buf (map some chunks))
unfolding until_from
until_from-Cut terminator buf [] p (e, le) = elim (Option-cases (find terminator buf)) [
  | inl miss ↦ absurd (cc (subst (λ (h : Bytes). find terminator h ≡ some p) (append-nil buf) e))
  | inr (q, hit) ↦ rw (hit) (in_buffer terminator buf [] p q hit e)
]
until_from-Cut terminator buf (chunk ∷ chunks) p (e, le) =
    elim (Option-cases (find terminator buf)) [
      | inl miss ↦
          let regroup : (buf ++ chunk) ++ joined chunks ≡ buf ++ (chunk ++ joined chunks) =
            append_assoc buf chunk (joined chunks) in
          let ends = subst (λ (h : Bytes). Ends terminator h p) (sym regroup) (e, le) in
          let room : ltb max_stream_buf (length (buf ++ chunk)) ≡ false =
            ge→ltb max_stream_buf (length (buf ++ chunk))
              (omega (arith, length-append (buf ++ chunk) (joined chunks), ends.1)) in
          rw (miss, room)
            (subst
              (λ (h : Bytes).
                Cut terminator h p (until_from terminator (buf ++ chunk) (map some chunks)))
              regroup (until_from-Cut terminator (buf ++ chunk) chunks p ends))
      | inr (q, hit) ↦ rw (hit) (in_buffer terminator buf (chunk ∷ chunks) p q hit e)
    ]
