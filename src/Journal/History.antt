-- ===== src/Journal/History.antt =====
-- The files of the journal as a bounded memory of everything that was written.
use ironharness.Prelude.{
  ℕ, zero, suc, ◌≤◌, ◌<◌, ◌≡◌, refl, sym, ap, ◌∙◌, subst, inl, inr, Option, none, some, List, [],
  ◌∷◌, ◌++◌, append-nil, append_assoc, Bytes, length, take, ltb, if◌then◌else◌, Bool-cases, arith,
  tests,
}
use ironharness.Journal.{Disk, content, rotate_at, rotate_if_full, append_text, write, rotate}
use ironharness.Journal.Rotation.{
  set_file_self, set_file_ne, rotate_live, rotate_newest, rotate_up, rotate_above,
}

-- What is written at once is a `B`, which is printed on the disk.
module _ {B : Type 0} (print : B → Bytes) where
  abbrev pub printed : List B → Bytes
  printed [] = []
  printed (b ∷ bs) = print b ++ printed bs

  pub printed-append : (bs cs : List B) → printed (bs ++ cs) ≡ printed bs ++ printed cs
  printed-append [] cs = refl
  printed-append (b ∷ bs) cs =
      ap (λ x. print b ++ x) (printed-append bs cs)
      ∙ sym (append_assoc (print b) (printed bs) (printed cs))

  -- The specification: the live file, if it is there, and the parts, the newest first.
  pub record Store : Type 0 where
    pub live : Option (List B)
    pub older : List (List B)

  abbrev pub file : Option (List B) → Option Bytes
  file none = none
  file (some bs) = some (printed bs)

  abbrev pub part : List (List B) → ℕ → Option Bytes
  part [] i = none
  part (p ∷ ps) zero = some (printed p)
  part (p ∷ ps) (suc i) = part ps i

  abbrev pub held : Option (List B) → List B
  held none = []
  held (some bs) = bs

  -- A full live file becomes the newest part, and `max_files` parts are kept.
  unfoldable pub turn : ℕ → ℕ → Store → Store
  turn max_bytes max_files s = elim s.live [
    | none ↦ s
    | some bs ↦
        if ltb (length (printed bs)) max_bytes
        then s
        else record { live = none; older = take max_files (bs ∷ s.older) }
  ]

  unfoldable pub add : B → Store → Store
  add b s = record s { live = some (held s.live ++ b ∷ []) }

  -- The disk holds the store.
  pub record Represents (max_files : ℕ) (d : Disk) (s : Store) : Type 0 where
    pub live_file : d 0 ≡ file s.live
    pub parts : (i : ℕ) → d (suc i) ≡ part s.older i
    pub few : length s.older ≤ max_files

  part_beyond : (ps : List (List B)) (i : ℕ) → length ps ≤ i → part ps i ≡ none
  part_beyond [] i l = refl
  part_beyond (p ∷ ps) zero l = absurd (omega arith)
  part_beyond (p ∷ ps) (suc i) l = part_beyond ps i (omega arith)

  part-take_lt : (n i : ℕ) (ps : List (List B)) → i < n → part (take n ps) i ≡ part ps i
  part-take_lt zero i ps l = absurd (omega arith)
  part-take_lt (suc n) i [] l = refl
  part-take_lt (suc n) zero (p ∷ ps) l = refl
  part-take_lt (suc n) (suc i) (p ∷ ps) l = part-take_lt n i ps (omega arith)

  part-take_ge : (n i : ℕ) (ps : List (List B)) → n ≤ i → part (take n ps) i ≡ none
  part-take_ge zero i ps l = refl
  part-take_ge (suc n) i [] l = refl
  part-take_ge (suc n) zero (p ∷ ps) l = absurd (omega arith)
  part-take_ge (suc n) (suc i) (p ∷ ps) l = part-take_ge n i ps (omega arith)

  few-take : (n : ℕ) (ps : List (List B)) → length (take n ps) ≤ n
  few-take zero ps = omega arith
  few-take (suc n) [] = omega arith
  few-take (suc n) (p ∷ ps) = omega (arith, few-take n ps)

  module _ (m : ℕ) (d : Disk) where
    rotated_parts :
        (bs : List B) (older : List (List B))
        → d 0 ≡ some (printed bs)
        → ((i : ℕ) → d (suc i) ≡ part older i)
        → length older ≤ suc m
        → (i : ℕ) → rotate (suc m) d (suc i) ≡ part (take (suc m) (bs ∷ older)) i
    rotated_parts bs older live parts few zero = rotate_newest m d ∙ live
    rotated_parts bs older live parts few (suc j) = elim (Bool-cases (ltb j m)) [
      | inl l ↦ rotate_up m d j (omega tests) ∙ parts j ∙ sym (part-take_lt m j older (omega tests))
      | inr l ↦
          rotate_above m d (suc j) (omega tests)
          ∙ parts (suc j)
          ∙ part_beyond older (suc j) (omega tests)
          ∙ sym (part-take_ge m j older (omega tests))
    ]

    turn-Represents :
        (max_bytes : ℕ) (live : Option (List B)) (older : List (List B))
        → Represents (suc m) d (record { live = live; older = older })
        → Represents
            (suc m)
            (rotate_at max_bytes (suc m) (file live) d)
            (turn max_bytes (suc m) (record { live = live; older = older }))
    unfolding turn rotate_at
    turn-Represents max_bytes none older r = r
    turn-Represents max_bytes (some bs) older r =
        elim (Bool-cases (ltb (length (printed bs)) max_bytes)) [
          | inl e ↦ rw e r
          | inr e ↦ rw e (record {
            live_file = rotate_live m d;
            parts = rotated_parts bs older r.live_file r.parts r.few;
            few = few-take (suc m) (bs ∷ older);
          })
        ]

  content-held : (live : Option (List B)) → content (file live) ≡ printed (held live)
  content-held none = refl
  content-held (some bs) = refl

  printed-add : (b : B) (bs : List B) → printed bs ++ print b ≡ printed (bs ++ b ∷ [])
  printed-add b bs =
      ap (λ x. printed bs ++ x) (sym (append-nil (print b))) ∙ sym (printed-append bs (b ∷ []))

  add-Represents :
      (n : ℕ) (d : Disk) (b : B) (s : Store)
      → Represents n d s
      → Represents n (append_text (print b) d) (add b s)
  unfolding append_text add
  add-Represents n d b s r = record {
    live_file =
        set_file_self 0 _ d
        ∙ ap (λ o. some (content o ++ print b)) r.live_file
        ∙ ap (λ x. some (x ++ print b)) (content-held s.live)
        ∙ ap some (printed-add b (held s.live));
    parts = λ i. set_file_ne 0 (suc i) _ d (λ e. omega arith) ∙ r.parts i;
    few = r.few;
  }

  pub rotate_if_full-Represents :
      (max_bytes m : ℕ) (d : Disk) (s : Store)
      → Represents (suc m) d s
      → Represents (suc m) (rotate_if_full max_bytes (suc m) d) (turn max_bytes (suc m) s)
  unfolding rotate_if_full
  rotate_if_full-Represents max_bytes m d s r =
      subst (λ o. Represents (suc m) (rotate_at max_bytes (suc m) o d) (turn max_bytes (suc m) s))
        (sym r.live_file) (turn-Represents m d max_bytes s.live s.older r)

  -- One write.
  pub write-Represents :
      (max_bytes m : ℕ) (d : Disk) (b : B) (s : Store)
      → Represents (suc m) d s
      → Represents (suc m) (write max_bytes (suc m) (print b) d) (add b (turn max_bytes (suc m) s))
  unfolding write
  write-Represents max_bytes m d b s r =
      add-Represents (suc m) (rotate_if_full max_bytes (suc m) d) b (turn max_bytes (suc m) s)
        (rotate_if_full-Represents max_bytes m d s r)
