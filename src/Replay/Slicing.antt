-- ===== src/Replay/Slicing.antt =====
-- How the recorded stream is cut does not matter, and a line ends where it should.
use ironharness.Prelude.{
  ℕ, zero, suc, ◌+◌, ◌≡◌, refl, sym, ap, ap₂, ◌∙◌, inl, inr, true, Option, none, some, List, [],
  ◌∷◌, ◌++◌, arith, Bytes, length, take, drop, length-append, take-add, drop-drop, drop_taken,
  take-append-drop, ◌&&◌, ◌==◌, if◌then◌else◌, Bool-cases,
}
use ironharness.Prelude.Search.{find, starts_with, shift}
use ironharness.Replay.{ReplayTransport, slice, read_bytes, read_line_bytes}

-- What is left to read.
pub unread : ReplayTransport → Bytes
unread t = drop t.rpos t.read_stream

abbrev pub sum : List ℕ → ℕ
sum [] = 0
sum (n ∷ ns) = n + sum ns

-- A run of reads, their answers joined.
pub reads : List ℕ → ReplayTransport → Bytes × ReplayTransport
reads [] t = ([], t)
reads (n ∷ ns) t =
    let (chunk, t') = read_bytes n t in let (rest, t'') = reads ns t' in (chunk ++ rest, t'')

read_text : (n : ℕ) (t : ReplayTransport) → (read_bytes n t).0 ≡ take n (unread t)
unfolding read_bytes unread
read_text n t = ap (λ k. take k (drop t.rpos t.read_stream)) (omega arith)

read_state :
    (n : ℕ) (t : ReplayTransport)
    → (read_bytes n t).1 ≡ record t { rpos = t.rpos + length (take n (unread t)) }
unfolding read_bytes
read_state n t =
    ap (λ (b : Bytes). record t { rpos = t.rpos + length b }) (unfold read_bytes in read_text n t)

pub unread-read : (n : ℕ) (t : ReplayTransport) → unread (read_bytes n t).1 ≡ drop n (unread t)
unfolding unread
unread-read n t =
    ap unread (read_state n t)
    ∙ sym (drop-drop (length (take n (unread t))) t.rpos t.read_stream)
    ∙ drop_taken n (unread t)

reads_text : (ns : List ℕ) (t : ReplayTransport) → (reads ns t).0 ≡ take (sum ns) (unread t)
unfolding reads
reads_text [] t = refl
reads_text (n ∷ ns) t =
    let t' = (read_bytes n t).1 in
    ap₂ ◌++◌ (read_text n t) (reads_text ns t' ∙ ap (take (sum ns)) (unread-read n t))
    ∙ sym (take-add n (sum ns) (unread t))

reads_state :
    (ns : List ℕ) (t : ReplayTransport)
    → (reads ns t).1 ≡ record t { rpos = t.rpos + length (reads ns t).0 }
unfolding reads
reads_state [] t = ap (λ (k : ℕ). record t { rpos = k }) (omega arith)
reads_state (n ∷ ns) t = reads_state ns t' ∙ whole
  where
    t' : ReplayTransport
    t' = (read_bytes n t).1

    whole :
        record t' { rpos = t'.rpos + length (reads ns t').0 }
        ≡ record t { rpos = t.rpos + length ((read_bytes n t).0 ++ (reads ns t').0) }
    whole =
        unfold read_bytes in
        ap (λ (k : ℕ). record t { rpos = k })
          (omega (arith, length-append (read_bytes n t).0 (reads ns t').0))

-- Any run of reads answers as one read of their total would, and leaves the same transport:
-- a replay does not depend on how the recorded reads were cut.
pub reads-sum : (ns : List ℕ) (t : ReplayTransport) → reads ns t ≡ read_bytes (sum ns) t
reads-sum ns t = λ i. (text i, state i)
  where
    text : (reads ns t).0 ≡ (read_bytes (sum ns) t).0
    text = reads_text ns t ∙ sym (read_text (sum ns) t)

    state : (reads ns t).1 ≡ (read_bytes (sum ns) t).1
    state =
        reads_state ns t
        ∙ ap (λ (b : Bytes). record t { rpos = t.rpos + length b }) (reads_text ns t)
        ∙ sym (read_state (sum ns) t)

-- The reference for a line: bytes up to and including the first newline, `max_len` at most.
pub line : ℕ → Bytes → Bytes
line zero xs = []
line (suc n) [] = []
line (suc n) (x ∷ xs) = let rest = line n xs in if x == 10 then x ∷ [] else x ∷ rest

abbrev stop_of : ℕ → Option ℕ → ℕ
stop_of m none = m
stop_of m (some p) = p + 1

swapped : (x : ℕ) → ((10 == x) && true) ≡ (x == 10)
swapped x = ground arith

past_one :
    (o : Option ℕ) (m x : ℕ) (xs rest : Bytes)
    → take (stop_of m o) xs ≡ rest
    → take (stop_of (suc m) (shift o)) (x ∷ xs) ≡ x ∷ rest
past_one none m x xs rest h = ap (◌∷◌ x) h
past_one (some p) m x xs rest h = ap (λ k. take k (x ∷ xs)) (suc_add_one p) ∙ ap (◌∷◌ x) h
  where
    suc_add_one : (q : ℕ) → suc q + 1 ≡ suc (q + 1)
    suc_add_one q = omega arith

find-line : (m : ℕ) (xs : Bytes) → take (stop_of m (find (10 ∷ []) (take m xs))) xs ≡ line m xs
unfolding find line starts_with
find-line zero [] = refl
find-line zero (x ∷ xs) = refl
find-line (suc m) [] = refl
find-line (suc m) (x ∷ xs) = elim (Bool-cases (x == 10)) [
  | inl e ↦ rw (swapped x, e)
  | inr e ↦
      rw (swapped x, e) (past_one (find (10 ∷ []) (take m xs)) m x xs (line m xs) (find-line m xs))
]

pub slice-take : (s : Bytes) (a n : ℕ) → slice s a (a + n) ≡ take n (drop a s)
unfolding slice
slice-take s a n = ap (λ k. take k (drop a s)) (omega arith)

module _ (max_len : ℕ) (t : ReplayTransport) where
  stop_text :
      (o : Option ℕ)
      → slice t.read_stream t.rpos (elim o [ none ↦ t.rpos + max_len | some at ↦ t.rpos + at + 1 ])
        ≡ take (stop_of max_len o) (unread t)
  unfolding slice unread
  stop_text none = ap (λ k. take k (drop t.rpos t.read_stream)) (omega arith)
  stop_text (some p) = ap (λ k. take k (drop t.rpos t.read_stream)) (omega arith)

  line_text :
      (read_line_bytes max_len t).0
      ≡ take (stop_of max_len (find (10 ∷ []) (take max_len (unread t)))) (unread t)
  unfolding read_line_bytes unread
  line_text =
      stop_text (find (10 ∷ []) (slice t.read_stream t.rpos (t.rpos + max_len)))
      ∙ ap (λ w. take (stop_of max_len (find (10 ∷ []) w)) (drop t.rpos t.read_stream))
          (slice-take t.read_stream t.rpos max_len)

  cut :
      (k : ℕ) (chunk : Bytes)
      → chunk ≡ take k (unread t)
      → unread t ≡ chunk ++ unread (record t { rpos = t.rpos + length chunk })
  unfolding unread
  cut k chunk e =
      sym (take-append-drop k (unread t))
      ∙ ap₂ ◌++◌ (sym e) (
          sym (drop_taken k (unread t))
          ∙ ap (λ (c : Bytes). drop (length c) (unread t)) (sym e)
          ∙ drop-drop (length chunk) t.rpos t.read_stream)

  -- `read_line` takes the next line of what is left, `max_len` bytes at most, and nothing else.
  pub read_line-line :
      ((read_line_bytes max_len t).0 ≡ line max_len (unread t))
      × (unread t ≡ line max_len (unread t) ++ unread (read_line_bytes max_len t).1)
  unfolding read_line_bytes
  read_line-line =
      let whole = line_text ∙ find-line max_len (unread t) in
      (
        whole,
        cut (stop_of max_len (find (10 ∷ []) (take max_len (unread t))))
              (read_line_bytes max_len t).0 line_text
            ∙ ap (λ c. c ++ unread (read_line_bytes max_len t).1) whole,
      )
