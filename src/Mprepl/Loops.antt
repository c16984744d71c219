-- ===== src/Mprepl/Loops.antt =====
-- The loops of put_file and get_file in src/io_core/mprepl.py, on a board that holds one file.
use ironharness.Prelude.{
  ℕ, zero, suc, true, ◌+◌, ◌≤◌, ◌<◌, ◌≡◌, ◌≢◌, refl, sym, ap, subst, ◌∙◌, Option, some, List, [],
  ◌∷◌, ◌++◌, Bytes, length, take, drop, arith, append_assoc, append-nil, take-append-drop,
  length-drop, drop-drop,
}
use ironharness.Prelude.Hex.{hex, AllBytes, Ascii, take-AllBytes, drop-AllBytes}
use ironharness.Prelude.Search.{starts_with}
use ironharness.Mprepl.{
  Arrivals, ok, Link, Op, close, write, read, codes, exec, next, without_mark, strip, write_all,
  read_all, read_on, read_answer, pieces,
}
use ironharness.Mprepl.Exec.{Unread}
use ironharness.Mprepl.Stream.{joined}
use ironharness.Mprepl.Answer.{printed, said, read_answer-printed, printed-Ascii}
use ironharness.Mprepl.Device.{shut, writing, reading, in_raw, Board, EndsWell, exec-Does, text_of}

abbrev pub Pieces : List Bytes → Type 0
Pieces [] = Unit {0}
Pieces (piece ∷ more) = AllBytes piece × Pieces more

taken_nil : (chunk : ℕ) (rest : Bytes) → 1 ≤ chunk → take chunk rest ≡ [] → rest ≡ []
taken_nil zero rest le e = absurd (omega arith)
taken_nil (suc chunk) [] le e = refl
taken_nil (suc chunk) (b ∷ rest) le e = cc

taken_some :
    (chunk : ℕ) (rest : Bytes) (b : ℕ) (part : Bytes) → take chunk rest ≡ b ∷ part → rest ≢ []
taken_some zero rest b part e = cc
taken_some (suc chunk) [] b part e = cc
taken_some (suc chunk) (c ∷ rest) b part e = λ nil. cc

shorter_rest :
    (chunk : ℕ) (rest : Bytes) (fuel : ℕ)
    → 1 ≤ chunk
    → rest ≢ []
    → length rest < suc fuel
    → length (drop chunk rest) < fuel
shorter_rest chunk [] fuel le more lt = absurd (more refl)
shorter_rest chunk (b ∷ rest) fuel le more lt = omega (arith, length-drop chunk (b ∷ rest))

module _ {S : Type 0} (respond : Bytes → S → Option (S × Arrivals)) (decode : Bytes → Bytes)
    {path size : Bytes} {chunk : ℕ} (board : Board respond decode path size chunk)
    (ascii : (text : Bytes) → Ascii text → decode text ≡ text) where
  -- The transfer's file is closed again, and holds this text.
  abbrev pub Closed : Bytes → S → Type 0
  Closed text s = board.view s ≡ in_raw true shut (some text)

  pub write_all-well :
      (pieces : List Bytes) (l : Link S) (text : Bytes)
      → Pieces pieces
      → Unread l []
      → board.view l.board ≡ in_raw true writing (some text)
      → EndsWell respond decode
          (write_all respond decode pieces l)
          tt
          (Closed (text ++ joined pieces))
  unfolding write_all
  write_all-well [] l text bytes u e =
      exec-Does respond decode close l _ (ascii [] tt) u
        (board.closes_written l.board true (some text) e)
        λ out l' u' closed. (
          l'.board,
          (refl, u', refl),
          closed ∙ ap (λ t. in_raw true shut (some t)) (sym (append-nil text)),
        )
  write_all-well (piece ∷ pieces) l text (b, bytes) u e =
      exec-Does respond decode (write (hex piece)) l _ (ascii [] tt) u
        (board.writes l.board text piece e b)
        λ out l' u' longer.
          subst
            (λ (t : Bytes).
              EndsWell respond decode (write_all respond decode pieces l') tt (Closed t))
            (append_assoc text piece (joined pieces))
            (write_all-well pieces l' (text ++ piece) bytes u' longer)

  text_of-printed :
      (part : Bytes)
      → AllBytes part
      → text_of respond decode (codes "OK" ++ printed part) ≡ printed part
  unfolding without_mark starts_with
  text_of-printed part bytes = ascii (printed part) (printed-Ascii part bytes)

  -- The loop's body, once the board has read this part of the rest.
  read_on-well :
      (part rest parts : Bytes) (again : Bytes → Op S Bytes) (l : Link S) (at : ℕ) {text : Bytes}
      → 1 ≤ chunk
      → part ≡ take chunk rest
      → Unread l []
      → board.view l.board ≡ in_raw true (reading at) (some text)
      → ((rest ≢ [])
          → EndsWell respond decode
              (again (parts ++ part) l)
              ((parts ++ part) ++ drop chunk rest)
              (Closed text))
      → EndsWell respond decode
          (read_on respond decode parts again (ok (said part)) l)
          (parts ++ rest)
          (Closed text)
  unfolding read_on
  read_on-well [] rest parts again l at {text} some_chunk e u same go =
      subst
        (λ (t : Bytes).
          EndsWell respond decode (next (exec respond decode close l) λ _ l'. (ok parts, l')) t
            (Closed text))
        (sym (append-nil parts) ∙ ap (◌++◌ parts) (sym (taken_nil chunk rest some_chunk (sym e))))
        (exec-Does respond decode close l _ (ascii [] tt) u
          (board.closes_read l.board true at (some text) same)
          λ out l' u' closed. (l'.board, (refl, u', refl), closed))
  read_on-well (b ∷ part) rest parts again l at {text} some_chunk e u same go =
      subst (λ (t : Bytes). EndsWell respond decode (again (parts ++ b ∷ part) l) t (Closed text))
        (append_assoc parts (b ∷ part) (drop chunk rest)
          ∙ ap (◌++◌ parts)
              (ap (λ (h : Bytes). h ++ drop chunk rest) e ∙ take-append-drop chunk rest))
        (go (taken_some chunk rest b part (sym e)))

  pub read_all-well :
      (fuel : ℕ) (parts : Bytes) (l : Link S) (at : ℕ) (text : Bytes)
      → 1 ≤ chunk
      → AllBytes text
      → Unread l []
      → board.view l.board ≡ in_raw true (reading at) (some text)
      → length (drop at text) < fuel
      → EndsWell respond decode
          (read_all respond decode size fuel parts l)
          (parts ++ drop at text)
          (Closed text)
  unfolding read_all
  read_all-well zero parts l at text some_chunk bytes u e enough = absurd (omega arith)
  read_all-well (suc fuel) parts l at text some_chunk bytes u e enough =
      exec-Does respond decode (read size) l _ (ascii [] tt) u (board.reads l.board at text e)
        λ out l' u' (printed_part, moved).
          subst
            (λ r.
              EndsWell respond decode
                (read_on respond decode parts (read_all respond decode size fuel) r l')
                (parts ++ rest) (Closed text))
            (sym (
              ap (λ (h : Bytes). read_answer (strip h))
                (ap (text_of respond decode) printed_part ∙ text_of-printed part ok_part)
              ∙ read_answer-printed part ok_part))
            (read_on-well part rest parts (read_all respond decode size fuel) l' (at + chunk)
              some_chunk refl u' moved
              λ more.
                let on : drop (at + chunk) text ≡ drop chunk rest = sym (drop-drop chunk at text) in
                subst
                  (λ (t : Bytes).
                    EndsWell respond decode (read_all respond decode size fuel (parts ++ part) l')
                      ((parts ++ part) ++ t) (Closed text))
                  on
                  (read_all-well fuel (parts ++ part) l' (at + chunk) text some_chunk bytes u' moved
                    (subst (λ (t : Bytes). length t < fuel) (sym on)
                      (shorter_rest chunk rest fuel some_chunk more enough))))
    where
      rest : Bytes
      rest = drop at text

      part : Bytes
      part = take chunk rest

      ok_part : AllBytes part
      ok_part = take-AllBytes chunk rest (drop-AllBytes at text bytes)
