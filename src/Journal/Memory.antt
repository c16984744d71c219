-- ===== src/Journal/Memory.antt =====
-- Nothing that was written is forgotten before the parts that may be kept are full.
use ironharness.Prelude.{
  ℕ, zero, suc, ◌≤◌, ◌≡◌, refl, sym, ap, ap₂, ◌∙◌, subst, ◌⊎◌, inl, inr, Option, none, some, List,
  [], ◌∷◌, ◌++◌, append-nil, append_assoc, Bytes, length, take, drop, take-append-drop, length-take,
  drop-all, ltb, Bool-cases, arith, tests,
}
use ironharness.Journal.{Disk, rotate_if_full, write}
use ironharness.Journal.History.{
  printed, Store, held, turn, add, Represents, rotate_if_full-Represents, write-Represents,
}

-- An empty directory.
abbrev pub no_files : Disk
no_files i = none

module _ {B : Type 0} (print : B → Bytes) where
  unfoldable pub oldest_first : List (List B) → List B
  oldest_first [] = []
  oldest_first (p ∷ ps) = oldest_first ps ++ p

  oldest_first-append :
      (ps qs : List (List B)) → oldest_first (ps ++ qs) ≡ oldest_first qs ++ oldest_first ps
  unfolding oldest_first
  oldest_first-append [] qs = sym (append-nil (oldest_first qs))
  oldest_first-append (p ∷ ps) qs =
      ap (λ x. x ++ p) (oldest_first-append ps qs)
      ∙ append_assoc (oldest_first qs) (oldest_first ps) p

  abbrev pub Sized : ℕ → List (List B) → Type 0
  Sized max_bytes [] = Unit {0}
  Sized max_bytes (p ∷ ps) = (max_bytes ≤ length (printed print p)) × Sized max_bytes ps

  Sized-take :
      (max_bytes n : ℕ) (ps : List (List B)) → Sized max_bytes ps → Sized max_bytes (take n ps)
  Sized-take max_bytes zero ps h = tt
  Sized-take max_bytes (suc n) [] h = tt
  Sized-take max_bytes (suc n) (p ∷ ps) (l, h) = (l, Sized-take max_bytes n ps h)

  -- The store has the last of what was written. What it has lost it lost with `max_files` full
  -- parts in place.
  pub record Recalls (max_bytes max_files : ℕ) (all : List B) (s : Store print) : Type 0 where
    pub lost : List B
    pub recalled : all ≡ lost ++ (oldest_first s.older ++ held print s.live)
    pub late : (lost ≡ []) ⊎ (length s.older ≡ max_files)
    pub sized : Sized max_bytes s.older

  take_all :
      (m : ℕ) (older : List (List B)) (bs : List B)
      → oldest_first older ++ bs
        ≡ oldest_first (drop m older) ++ oldest_first (take (suc m) (bs ∷ older))
  unfolding oldest_first
  take_all m older bs =
      ap (λ x. oldest_first x ++ bs) (sym (take-append-drop m older))
      ∙ ap (λ x. x ++ bs) (oldest_first-append (take m older) (drop m older))
      ∙ append_assoc (oldest_first (drop m older)) (oldest_first (take m older)) bs

  turn_late :
      (m : ℕ) (older : List (List B)) (bs lost : List B)
      → (lost ≡ []) ⊎ (length older ≡ suc m)
      → (lost ++ oldest_first (drop m older) ≡ []) ⊎ (length (take (suc m) (bs ∷ older)) ≡ suc m)
  unfolding oldest_first
  turn_late m older bs lost late = elim (Bool-cases (ltb m (length older))) [
    | inl l ↦ inr (omega (tests, length-take m older))
    | inr l ↦ elim late [
      | inl e ↦ inl (ap₂ (λ a b. a ++ oldest_first b) e (drop-all m older (omega tests)))
      | inr e ↦ absurd (omega tests)
    ]
  ]

  turn-Recalls :
      (max_bytes m : ℕ) (all : List B) (live : Option (List B)) (older : List (List B))
      → Recalls max_bytes (suc m) all (record { live = live; older = older })
      → Recalls max_bytes
          (suc m)
          all
          (turn print max_bytes (suc m) (record { live = live; older = older }))
  unfolding turn
  turn-Recalls max_bytes m all none older r = r
  turn-Recalls max_bytes m all (some bs) older r =
      elim (Bool-cases (ltb (length (printed print bs)) max_bytes)) [
        | inl e ↦ rw e r
        | inr e ↦ rw e (record {
          lost = r.lost ++ oldest_first (drop m older);
          recalled =
              r.recalled
              ∙ ap (λ x. r.lost ++ x) (take_all m older bs)
              ∙ sym (
                  append_assoc r.lost (oldest_first (drop m older))
                    (oldest_first (take (suc m) (bs ∷ older))))
              ∙ ap (λ x. (r.lost ++ oldest_first (drop m older)) ++ x)
                  (sym (append-nil (oldest_first (take (suc m) (bs ∷ older)))));
          late = turn_late m older bs r.lost r.late;
          sized = Sized-take max_bytes (suc m) (bs ∷ older) (omega tests, r.sized);
        })
      ]

  add-Recalls :
      (max_bytes n : ℕ) (all : List B) (b : B) (s : Store print)
      → Recalls max_bytes n all s
      → Recalls max_bytes n (all ++ b ∷ []) (add print b s)
  unfolding add
  add-Recalls max_bytes n all b s r =
      let o = oldest_first s.older in
      let h = held print s.live in
      record {
        lost = r.lost;
        recalled =
            ap (λ x. x ++ b ∷ []) r.recalled
            ∙ append_assoc r.lost (o ++ h) (b ∷ [])
            ∙ ap (λ x. r.lost ++ x) (append_assoc o h (b ∷ []));
        late = r.late;
        sized = r.sized;
      }

  -- A call of a process: what it writes, or `none` where the file did not open after the rotation.
  unfoldable pub attempt : ℕ → ℕ → Option B → Disk → Disk
  attempt max_bytes max_files none d = rotate_if_full max_bytes max_files d
  attempt max_bytes max_files (some b) d = write max_bytes max_files (print b) d

  -- The calls of any processes that share the files and their limits.
  unfoldable pub attempts : ℕ → ℕ → List (Option B) → Disk → Disk
  attempts max_bytes max_files [] d = d
  attempts max_bytes max_files (b ∷ bs) d =
      attempts max_bytes max_files bs (attempt max_bytes max_files b d)

  unfoldable pub made : List (Option B) → List B
  made [] = []
  made (none ∷ bs) = made bs
  made (some b ∷ bs) = b ∷ made bs

  abbrev pub Remembers : ℕ → ℕ → List B → Disk → Type 0
  Remembers max_bytes max_files all d =
      (s : Store print) × Represents print max_files d s × Recalls max_bytes max_files all s

  attempts-Remembers :
      (max_bytes m : ℕ) (bs : List (Option B)) (all : List B) (d : Disk)
      → Remembers max_bytes (suc m) all d
      → Remembers max_bytes (suc m) (all ++ made bs) (attempts max_bytes (suc m) bs d)
  unfolding attempts attempt made
  attempts-Remembers max_bytes m [] all d (s, rep, rec) =
      (s, rep, subst (λ x. Recalls max_bytes (suc m) x s) (sym (append-nil all)) rec)
  attempts-Remembers max_bytes m (none ∷ bs) all d (s, rep, rec) =
      attempts-Remembers max_bytes m bs all (rotate_if_full max_bytes (suc m) d) (
        turn print max_bytes (suc m) s,
        rotate_if_full-Represents print max_bytes m d s rep,
        turn-Recalls max_bytes m all s.live s.older rec,
      )
  attempts-Remembers max_bytes m (some b ∷ bs) all d (s, rep, rec) =
      subst (λ x. Remembers max_bytes (suc m) x (attempts max_bytes (suc m) (some b ∷ bs) d))
        (append_assoc all (b ∷ []) (made bs))
        (attempts-Remembers max_bytes m bs (all ++ b ∷ []) (write max_bytes (suc m) (print b) d) (
          add print b (turn print max_bytes (suc m) s),
          write-Represents print max_bytes m d b s rep,
          add-Recalls max_bytes (suc m) all b (turn print max_bytes (suc m) s)
              (turn-Recalls max_bytes m all s.live s.older rec),
        ))

  -- From an empty directory, whatever processes write, the files hold a store as the specification
  -- has it, with the last of all that was written; what is missing at the front went while
  -- `max_files` parts of at least `max_bytes` each were there.
  pub attempts-Remembers_all :
      (max_bytes m : ℕ) (bs : List (Option B))
      → Remembers max_bytes (suc m) (made bs) (attempts max_bytes (suc m) bs no_files)
  unfolding oldest_first
  attempts-Remembers_all max_bytes m bs = attempts-Remembers max_bytes m bs [] no_files (
    record { live = none; older = [] },
    record { live_file = refl; parts = λ i. refl; few = omega arith },
    record { lost = []; recalled = refl; late = inl refl; sized = tt },
  )
