-- ===== src/Mprepl/Exec.antt =====
-- `exec_` of src/io_core/mprepl.py against a board that answers as the raw REPL does.
use ironharness.Prelude.{
  true, Bool-cases, inl, inr, if_true, if_false, ap₂, ℕ, ◌+◌, ◌≤◌, ◌≡◌, refl, sym, ap, subst, ◌∙◌,
  Option, some, List, [], ◌∷◌, ◌++◌, Bytes, length, take, drop, arith, map, append_assoc,
  take-append_self, take-append-drop, drop-append_self, drop-drop, length-append,
}
use ironharness.Prelude.Search.{
  Absent, starts_with, starts_with-take, starts_with-append, find-first,
}
use ironharness.Mprepl.{
  Arrivals, Result, ok, err, Link, Op, Command, command_text, codes, strip, without_mark, raised,
  board_error, until, until_from, sent, send, exec, next, finish, max_stream_buf,
}
use ironharness.Mprepl.Stream.{joined, Ends, Cut, until_from-Cut}

joined-append : (xs ys : List Bytes) → joined (xs ++ ys) ≡ joined xs ++ joined ys
joined-append [] ys = refl
joined-append (x ∷ xs) ys =
    ap (◌++◌ x) (joined-append xs ys) ∙ sym (append_assoc x (joined xs) (joined ys))

on_time-append : (xs ys : List Bytes) → map some xs ++ map some ys ≡ map some (xs ++ ys)
on_time-append [] ys = refl
on_time-append (x ∷ xs) ys = ap (◌∷◌ (some x)) (on_time-append xs ys)

shorter :
    (out rest : Bytes) → length (out ++ 4 ∷ rest) ≤ max_stream_buf → length rest ≤ max_stream_buf
shorter out rest le = omega (arith, length-append out (4 ∷ rest))

-- The text of an output: what stands behind an OK at its start, or all of it without one.
pub data Text : Bytes → Bytes → Type 0 where
  marked : (text : Bytes) → Text (79 ∷ 75 ∷ text) text
  unmarked : (out : Bytes) → ((text : Bytes) → ¬ (out ≡ 79 ∷ 75 ∷ text)) → Text out out

-- The result for a text and an error text: the board's error, without the space around it,
-- unless that is blank; then the text.
pub data Outcome (decode : Bytes → Bytes) : Bytes → Bytes → Result Bytes → Type 0 where
  fine :
      (text error : Bytes)
      → strip (decode error) ≡ []
      → Outcome decode text error (ok (decode text))
  failed :
      (text error : Bytes) (c : ℕ) (cs : Bytes)
      → strip (decode error) ≡ c ∷ cs
      → Outcome decode text error (err (board_error (c ∷ cs)))

starts_ok :
    (out : Bytes) → starts_with (79 ∷ 75 ∷ []) out ≡ true → (text : Bytes) × (out ≡ 79 ∷ 75 ∷ text)
starts_ok out e =
    let (same, le) = starts_with-take (79 ∷ 75 ∷ []) out e in
    (drop 2 out, sym (take-append-drop 2 out) ∙ ap (λ (h : Bytes). h ++ drop 2 out) same)

without_mark-Text : (out text : Bytes) → Text out text → without_mark out ≡ text
unfolding without_mark
without_mark-Text out text (marked _) = if_true _ _ (starts_with-append (79 ∷ 75 ∷ []) text)
without_mark-Text out text (unmarked _ bare) = elim (Bool-cases (starts_with (79 ∷ 75 ∷ []) out)) [
  | inl there ↦ let (rest, e) = starts_ok out there in absurd (bare rest e)
  | inr gone ↦ if_false _ _ gone
]

finish-Outcome :
    (decode : Bytes → Bytes) (out text error : Bytes) (r : Result Bytes)
    → Text out text
    → Outcome decode text error r
    → finish decode out error ≡ r
unfolding finish
finish-Outcome decode out text error r t (fine _ _ e) =
    ap₂ raised e (ap decode (without_mark-Text out text t))
finish-Outcome decode out text error r t (failed _ _ c cs e) =
    ap (λ (h : Bytes). raised h (decode (without_mark out))) e

module _ {S : Type 0} where
  -- The text that the link still holds, and that is all on time.
  abbrev pub Unread : Link S → Bytes → Type 0
  Unread l text =
      (chunks : List Bytes) × (l.pending ≡ map some chunks) × (l.buf ++ joined chunks ≡ text)

  -- An operation's end: its result, with this text still unread and the board in this state.
  abbrev pub Ended {ℓ} : {A : Type ℓ} → A × Link S → A → Bytes → S → Type ℓ
  Ended (r, l) a text s = (r ≡ a) × Unread l text × (l.board ≡ s)

  until_section :
      (c : ℕ) (l : Link S) (piece more : Bytes) (s : S)
      → l.board ≡ s
      → Unread l (piece ++ c ∷ more)
      → Absent c piece
      → length (piece ++ c ∷ more) ≤ max_stream_buf
      → Ended (until (c ∷ []) l) (ok piece) more s
  unfolding until
  until_section c l piece more s b (chunks, on_time, e) a le =
      let found =
        subst (λ (h : Bytes). Ends (c ∷ []) h (length piece)) (sym e)
          (find-first c piece more a, le) in
      let (later, r, rest, unread) =
        subst
          (λ (ps : Arrivals).
            Cut (c ∷ []) (l.buf ++ joined chunks) (length piece) (until_from (c ∷ []) l.buf ps))
          (sym on_time) (until_from-Cut (c ∷ []) l.buf chunks (length piece) found) in
      (
        r
            ∙ ap (λ (h : Bytes). ok (take (length piece) h)) e
            ∙ ap ok (take-append_self piece (c ∷ more)),
        (
          later,
          rest,
          unread
              ∙ ap (drop (length piece + 1)) e
              ∙ sym (drop-drop 1 (length piece) (piece ++ c ∷ more))
              ∙ ap (drop 1) (drop-append_self piece (c ∷ more)),
        ),
        b,
      )

  -- A step that ends well is followed by the rest, from the link it leaves.
  pub next-Ended :
      {A B : Type 0} (x : Result A × Link S) (f : A → Op S B) (a : A) (text : Bytes) (s : S)
      {r : Result B} {text' : Bytes} {s' : S}
      → Ended x (ok a) text s
      → ((l' : Link S) → Unread l' text → l'.board ≡ s → Ended (f a l') r text' s')
      → Ended (next x f) r text' s'
  unfolding next
  next-Ended (ok a', l') f a text s {r} {text'} {s'} (e, u, b) rest =
      subst (λ a''. Ended (f a'' l') r text' s') (sym (cc e)) (rest l' u b)
  next-Ended (err e', l') f a text s (e, u, b) rest = cc e

  sent-Ended :
      (l : Link S) (answer : Option (S × Arrivals)) (chunks : List Bytes) (s' : S)
      → Unread l []
      → answer ≡ some (s', map some chunks)
      → Ended (sent answer l) (ok tt) (joined chunks) s'
  sent-Ended l answer chunks s' (before, on_time, e) known =
      subst (λ o. Ended (sent o l) (ok tt) (joined chunks) s') (sym known)
        (
          refl,
          (
            before ++ chunks,
            ap (λ (ps : Arrivals). ps ++ map some chunks) on_time ∙ on_time-append before chunks,
            ap (◌++◌ l.buf) (joined-append before chunks)
                ∙ sym (append_assoc l.buf (joined before) (joined chunks))
                ∙ ap (λ (h : Bytes). h ++ joined chunks) e,
          ),
          refl,
        )

  module _ (respond : Bytes → S → Option (S × Arrivals)) (decode : Bytes → Bytes) where
    -- The board's answer to a command: its output, its error text, and the prompt.
    abbrev pub Answers : Command → S → Bytes → Bytes → S → Type 0
    Answers c s out error s' =
        (chunks : List Bytes) × (respond (command_text c ++ 4 ∷ []) s ≡ some (s', map some chunks))
        × (joined chunks ≡ out ++ 4 ∷ (error ++ 4 ∷ 62 ∷ []))

    -- `exec_` ends with what `finish` makes of the output and the error text.
    pub exec-finish :
        (c : Command) (l : Link S) (out error : Bytes) (s' : S)
        → Unread l []
        → Answers c l.board out error s'
        → Absent 4 out
        → Absent 4 error
        → length (out ++ 4 ∷ (error ++ 4 ∷ 62 ∷ [])) ≤ max_stream_buf
        → Ended (exec respond decode c l) (finish decode out error) [] s'
    unfolding exec send next
    exec-finish c l out error s' u (chunks, known, text) a b le =
        next-Ended (sent (respond (command_text c ++ 4 ∷ []) l.board) l) _ tt (joined chunks) s'
          (sent-Ended l (respond (command_text c ++ 4 ∷ []) l.board) chunks s' u known)
          λ l1 u1 b1.
            next-Ended (until (4 ∷ []) l1) _ out (error ++ 4 ∷ 62 ∷ []) s'
              (until_section 4 l1 out (error ++ 4 ∷ 62 ∷ []) s' b1 (subst (Unread l1) text u1) a le)
              λ l2 u2 b2.
                next-Ended (until (4 ∷ []) l2) _ error (62 ∷ []) s'
                  (until_section 4 l2 error (62 ∷ []) s' b2 u2 b
                    (shorter out (error ++ 4 ∷ 62 ∷ []) le))
                  λ l3 u3 b3.
                    next-Ended (until (codes ">") l3) _ [] [] s'
                      (until_section 62 l3 [] [] s' b3 u3 tt (omega arith))
                      λ l4 u4 b4. (refl, u4, b4)

    -- `exec_` on a link with nothing unread, where the board answers with an output and an error
    -- text that hold no Ctrl+D, however its answer is cut into chunks, and with an answer that the
    -- buffer may hold: the result is the board's error if the error text, decoded, is not blank, and
    -- else the output, decoded, without the OK at its start if there is one; and again nothing is
    -- unread.
    pub exec-answer :
        (c : Command) (l : Link S) (out text error : Bytes) (r : Result Bytes) (s' : S)
        → Unread l []
        → Answers c l.board out error s'
        → Absent 4 out
        → Absent 4 error
        → length (out ++ 4 ∷ (error ++ 4 ∷ 62 ∷ [])) ≤ max_stream_buf
        → Text out text
        → Outcome decode text error r
        → Ended (exec respond decode c l) r [] s'
    exec-answer c l out text error r s' u answers a b le t outcome =
        subst (λ (q : Result Bytes). Ended (exec respond decode c l) q [] s')
          (finish-Outcome decode out text error r t outcome)
          (exec-finish c l out error s' u answers a b le)
