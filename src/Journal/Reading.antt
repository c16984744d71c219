-- ===== src/Journal/Reading.antt =====
-- What is read back from the files is what was written, from some entry on.
use ironharness.Prelude.{
  ℕ, zero, suc, ◌+◌, ◌<◌, ◌≡◌, ◌≢◌, refl, sym, ap, ap₂, ◌∙◌, subst, ◌⊎◌, inl, inr, false, Option,
  none, some, List, [], ◌∷◌, ◌++◌, append-nil, append_assoc, Bytes, length, length-append, ◌==◌,
  if_false, arith,
}
use ironharness.Journal.{
  Disk, Json, Event, newline, behind, with_live, parts_from, chain_files, extend_first, lines_of,
  line, print, cons_event, append_events, read_lines, read_text, read_files, read_events_chain,
}
use ironharness.Journal.History.{printed, Store, file, part, held, Represents}
use ironharness.Journal.Memory.{oldest_first, attempts, made, no_files, attempts-Remembers_all}

-- No byte is a newline.
abbrev pub Lacks : Bytes → Type 0
Lacks [] = Unit {0}
Lacks (c ∷ text) = (c ≢ newline) × Lacks text

-- What the code relies on of the JSON library, for the objects in `P`: an object comes back from its
-- text, which is one line and not a blank one.
pub record IsLawful (json : Json) (P : Event json → Type 0) : Type 0 where
  pub loads-dumps : (e : Event json) → P e → json.loads (json.dumps e) ≡ some e
  pub one_line : (e : Event json) → P e → Lacks (json.dumps e)
  pub not_blank : (e : Event json) → P e → json.blank (json.dumps e) ≡ false

abbrev pub All : {A : Type 0} → (A → Type 0) → List A → Type 0
All P [] = Unit {0}
All P (x ∷ xs) = P x × All P xs

All-append_left : {A : Type 0} (P : A → Type 0) (xs ys : List A) → All P (xs ++ ys) → All P xs
All-append_left P [] ys h = tt
All-append_left P (x ∷ xs) ys (p, h) = (p, All-append_left P xs ys h)

All-append_right : {A : Type 0} (P : A → Type 0) (xs ys : List A) → All P (xs ++ ys) → All P ys
All-append_right P [] ys h = h
All-append_right P (x ∷ xs) ys (p, h) = All-append_right P xs ys h

not_newline : (c : ℕ) → c ≢ newline → (c == newline) ≡ false
not_newline c n = ground arith

lines_of-line :
    (l rest : Bytes) → Lacks l → lines_of ((l ++ newline ∷ []) ++ rest) ≡ l ∷ lines_of rest
unfolding lines_of
lines_of-line [] rest h = refl
lines_of-line (c ∷ l) rest (n, h) =
    if_false _ _ (not_newline c n) ∙ ap (extend_first c) (lines_of-line l rest h)

module _ {B : Type 0} (print : B → Bytes) where
  -- The parts as lists of what was written, the oldest first.
  pub old_files : List (List B) → List (List B)
  old_files [] = []
  old_files (p ∷ ps) = old_files ps ++ p ∷ []

  abbrev pub texts : List (List B) → List Bytes
  texts [] = []
  texts (p ∷ ps) = printed print p ∷ texts ps

  texts-concat :
      (ps : List (List B)) (p : List B) → texts (ps ++ p ∷ []) ≡ texts ps ++ printed print p ∷ []
  texts-concat [] p = refl
  texts-concat (q ∷ ps) p = ap (λ x. printed print q ∷ x) (texts-concat ps p)

  parts_from-old :
      (fuel i : ℕ) (d : Disk) (older : List (List B))
      → ((k : ℕ) → d (k + i) ≡ part print older k)
      → length older < fuel
      → parts_from fuel i d ≡ texts (old_files older)
  unfolding parts_from old_files behind
  parts_from-old zero i d older h l = absurd (omega arith)
  parts_from-old (suc fuel) i d [] h l =
      ap (behind (parts_from fuel (suc i) d)) (ap d (omega arith) ∙ h 0)
  parts_from-old (suc fuel) i d (p ∷ ps) h l =
      ap₂ behind
        (parts_from-old fuel (suc i) d ps (λ k. ap d (omega arith) ∙ h (suc k)) (omega arith))
        (ap d (omega arith) ∙ h 0)
      ∙ sym (texts-concat (old_files ps) p)

  abbrev pub live_files : Option (List B) → List (List B)
  live_files none = []
  live_files (some bs) = bs ∷ []

  texts-append : (ps qs : List (List B)) → texts (ps ++ qs) ≡ texts ps ++ texts qs
  texts-append [] qs = refl
  texts-append (p ∷ ps) qs = ap (λ x. printed print p ∷ x) (texts-append ps qs)

  with_live-texts :
      (fs : List Bytes) (live : Option (List B))
      → with_live fs (file print live) ≡ fs ++ texts (live_files live)
  unfolding with_live
  with_live-texts fs none = sym (append-nil fs)
  with_live-texts fs (some bs) = refl

  chain_files-texts :
      (fuel n : ℕ) (d : Disk) (s : Store print)
      → Represents print n d s
      → n < fuel
      → chain_files fuel d ≡ texts (old_files s.older ++ live_files s.live)
  unfolding chain_files
  chain_files-texts fuel n d s r l =
      ap₂ with_live
        (parts_from-old fuel 1 d s.older (λ k. ap d (omega arith) ∙ r.parts k)
          (omega (arith, r.few)))
        r.live_file
      ∙ with_live-texts (texts (old_files s.older)) s.live
      ∙ sym (texts-append (old_files s.older) (live_files s.live))

  length-old_files : (older : List (List B)) → length (old_files older) ≡ length older
  unfolding old_files
  length-old_files [] = refl
  length-old_files (p ∷ ps) =
      omega (arith, length-append (old_files ps) (p ∷ []), length-old_files ps)

  length-texts : (fs : List (List B)) → length (texts fs) ≡ length fs
  length-texts [] = refl
  length-texts (f ∷ fs) = ap suc (length-texts fs)

-- All that the lists of a list hold.
abbrev pub flat : {A : Type 0} → List (List A) → List A
flat [] = []
flat (x ∷ xs) = x ++ flat xs

flat-append : {A : Type 0} (xs ys : List (List A)) → flat (xs ++ ys) ≡ flat xs ++ flat ys
flat-append [] ys = refl
flat-append (x ∷ xs) ys =
    ap (λ z. x ++ z) (flat-append xs ys) ∙ sym (append_assoc x (flat xs) (flat ys))

module _ {B : Type 0} (print : B → Bytes) where
  flat-old_files : (older : List (List B)) → flat (old_files print older) ≡ oldest_first print older
  unfolding old_files oldest_first
  flat-old_files [] = refl
  flat-old_files (p ∷ ps) =
      flat-append (old_files print ps) (p ∷ [])
      ∙ ap₂ (λ a b. a ++ b) (flat-old_files ps) (append-nil p)

  flat-live_files : (live : Option (List B)) → flat (live_files print live) ≡ held print live
  flat-live_files none = refl
  flat-live_files (some bs) = append-nil bs

  flat-files :
      (s : Store print)
      → flat (old_files print s.older ++ live_files print s.live)
        ≡ oldest_first print s.older ++ held print s.live
  flat-files s =
      flat-append (old_files print s.older) (live_files print s.live)
      ∙ ap₂ (λ a b. a ++ b) (flat-old_files s.older) (flat-live_files s.live)

module _ (json : Json) (P : Event json → Type 0) (law : IsLawful json P) where
  read_step :
      (e : Event json) (rest : Bytes)
      → P e
      → read_text json (line json e ++ rest) ≡ cons_event json (some e) (read_text json rest)
  unfolding read_text read_lines line
  read_step e rest h =
      ap (read_lines json) (lines_of-line (json.dumps e) rest (law.one_line e h))
      ∙ if_false _ _ (law.not_blank e h)
      ∙ ap (λ o. cons_event json o (read_lines json (lines_of rest))) (law.loads-dumps e h)

  read_text-print : (es : List (Event json)) → All P es → read_text json (print json es) ≡ some es
  unfolding print
  read_text-print [] h = unfold read_text read_lines lines_of in refl
  read_text-print (e ∷ es) (h, hs) =
      read_step e (print json es) h
      ∙ ap (cons_event json (some e)) (read_text-print es hs)
      ∙ unfold cons_event in refl

  print-append :
      (es fs : List (Event json)) → print json (es ++ fs) ≡ print json es ++ print json fs
  unfolding print
  print-append [] fs = refl
  print-append (e ∷ es) fs =
      ap (λ x. line json e ++ x) (print-append es fs)
      ∙ sym (append_assoc (line json e) (print json es) (print json fs))

  printed-flat :
      (batches : List (List (Event json)))
      → printed (print json) batches ≡ print json (flat batches)
  printed-flat [] = unfold print in refl
  printed-flat (b ∷ bs) =
      ap (λ x. print json b ++ x) (printed-flat bs) ∙ sym (print-append b (flat bs))

  read_files-texts :
      (files : List (List (List (Event json))))
      → All P (flat (flat files))
      → read_files json (texts (print json) files) ≡ some (flat (flat files))
  unfolding read_files
  read_files-texts [] h = refl
  read_files-texts (f ∷ fs) h =
      let both = subst (All P) (flat-append f (flat fs)) h in
      ap₂ (append_events json)
        (ap (read_text json) (printed-flat f)
          ∙ read_text-print (flat f) (All-append_left P (flat f) (flat (flat fs)) both))
        (read_files-texts fs (All-append_right P (flat f) (flat (flat fs)) both))
      ∙ unfold append_events in ap some (sym (flat-append f (flat fs)))

  late_parts :
      {m fuel : ℕ} {d : Disk} {lost : List (List (Event json))} (s : Store (print json))
      → Represents (print json) (suc m) d s
      → suc m < fuel
      → (lost ≡ []) ⊎ (length s.older ≡ suc m)
      → (lost ≡ []) ⊎ (length (parts_from fuel 1 d) ≡ suc m)
  late_parts s rep l (inl e) = inl e
  late_parts {m} {fuel} {d} s rep l (inr e) =
      let p = print json in
      inr (
        ap length
          (parts_from-old p fuel 1 d s.older (λ k. ap d (omega arith) ∙ rep.parts k) (omega arith))
        ∙ length-texts p (old_files p s.older)
        ∙ length-old_files p s.older
        ∙ e)

  pub read_events_chain-attempts :
      (max_bytes m fuel : ℕ) (batches : List (Option (List (Event json))))
      → suc m < fuel
      → All P (flat (made (print json) batches))
      → (lost kept : List (List (Event json))) × (made (print json) batches ≡ lost ++ kept)
        × (read_events_chain json fuel (attempts (print json) max_bytes (suc m) batches no_files)
            ≡ some (flat kept))
        × ((lost ≡ [])
            ⊎ (length (parts_from fuel 1 (attempts (print json) max_bytes (suc m) batches no_files))
                ≡ suc m))
  unfolding read_events_chain
  read_events_chain-attempts max_bytes m fuel batches l h =
      let p = print json in
      let d = attempts p max_bytes (suc m) batches no_files in
      let (s, rep, rec) = attempts-Remembers_all p max_bytes m batches in
      let kept = oldest_first p s.older ++ held p s.live in
      let of_kept =
        All-append_right P (flat rec.lost) (flat kept)
          (subst (All P) (ap flat rec.recalled ∙ flat-append rec.lost kept) h) in
      (
        rec.lost,
        kept,
        rec.recalled,
        ap (read_files json) (chain_files-texts p fuel (suc m) d s rep l)
            ∙ read_files-texts (old_files p s.older ++ live_files p s.live)
                (subst (λ x. All P (flat x)) (sym (flat-files p s)) of_kept)
            ∙ ap (λ (x : List (List (Event json))). some (flat x)) (flat-files p s),
        late_parts s rep l rec.late,
      )
