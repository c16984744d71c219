-- ===== src/Journal/Rotation.antt =====
-- What one rotation does to each file.
use ironharness.Prelude.{
  ℕ, zero, suc, ◌-◌, ◌<◌, ◌≡◌, ◌≢◌, refl, sym, ap, ◌∙◌, false, Option, none, some, ◌==◌,
  if◌then◌else◌, Bool-cases, inl, inr, arith,
}
use ironharness.Journal.{
  Disk, is_some, set_file, replace, part_exists, shift_round, shift_parts, rotate,
}

pub set_file_self : (i : ℕ) (file : _) (d : Disk) → set_file i file d i ≡ file
unfolding set_file
set_file_self i file d = ground arith

pub set_file_ne : (i j : ℕ) (file : _) (d : Disk) → i ≢ j → set_file i file d j ≡ d j
unfolding set_file
set_file_ne i j file d n = ground arith

absent : {A : Type 0} (o : Option A) → is_some o ≡ false → o ≡ none
absent none e = refl
absent (some a) e = cc

-- One round: the part moves up, onto whatever was there; a part that is missing leaves the place
-- above it as it is.
round_target :
    (i : ℕ) (d : Disk) → d (suc (suc i)) ≡ none → shift_round i d (suc (suc i)) ≡ d (suc i)
unfolding shift_round part_exists replace set_file
round_target i d gone = elim (Bool-cases (is_some (d (suc i)))) [
  | inl e ↦ rw e (ground arith)
  | inr e ↦ rw e (gone ∙ sym (absent (d (suc i)) e))
]

round_source : (i : ℕ) (d : Disk) → shift_round i d (suc i) ≡ none
unfolding shift_round part_exists replace set_file
round_source i d = elim (Bool-cases (is_some (d (suc i)))) [
  | inl e ↦ rw e (ground arith)
  | inr e ↦ rw e (absent (d (suc i)) e)
]

round_other : (i j : ℕ) (d : Disk) → j ≢ suc i → j ≢ suc (suc i) → shift_round i d j ≡ d j
unfolding shift_round part_exists replace set_file
round_other i j d a b = ground arith

-- The loop, on the file at 1, on those above the highest part, and on the live one.
shift_first : (n : ℕ) (d : Disk) → d (suc n) ≡ none → shift_parts n d 1 ≡ none
unfolding shift_parts
shift_first zero d gone = gone
shift_first (suc n) d gone = shift_first n (shift_round n d) (round_source n d)

shift_rest : (n j : ℕ) (d : Disk) → suc n < j → shift_parts n d j ≡ d j
unfolding shift_parts
shift_rest zero j d l = refl
shift_rest (suc n) j d l =
    shift_rest n j (shift_round n d) (omega arith)
    ∙ round_other n j d (λ e. omega arith) (λ e. omega arith)

shift_live : (n : ℕ) (d : Disk) → shift_parts n d 0 ≡ d 0
unfolding shift_parts
shift_live zero d = refl
shift_live (suc n) d =
    shift_live n (shift_round n d) ∙ round_other n 0 d (λ e. omega arith) (λ e. omega arith)

-- The loop: every part up to `.n` is one place higher, if the place above the highest was free.
shift_up :
    (n j : ℕ) (d : Disk) → d (suc n) ≡ none → j < n → shift_parts n d (suc (suc j)) ≡ d (suc j)
unfolding shift_parts
shift_up zero j d gone l = absurd (omega arith)
shift_up (suc n) j d gone l = elim (Bool-cases (j == n)) [
  | inl e ↦
      let e' : j ≡ n = ground arith in
      rw e' (shift_rest n (suc (suc n)) (shift_round n d) (omega arith) ∙ round_target n d gone)
  | inr e ↦
      shift_up n j (shift_round n d) (round_source n d) (ground arith)
      ∙ round_other n (suc j) d (λ x. ground arith) (λ x. omega arith)
]

-- The unlinking of the oldest part.
freed_self :
    (m : ℕ) (d : Disk)
    → (if part_exists (suc m) d then set_file (suc m) none d else d) (suc m) ≡ none
unfolding part_exists
freed_self m d = elim (Bool-cases (is_some (d (suc m)))) [
  | inl e ↦ rw e (set_file_self (suc m) none d)
  | inr e ↦ rw e (absent (d (suc m)) e)
]

freed_ne :
    (m j : ℕ) (d : Disk)
    → j ≢ suc m
    → (if part_exists (suc m) d then set_file (suc m) none d else d) j ≡ d j
unfolding part_exists
freed_ne m j d n = elim (Bool-cases (is_some (d (suc m)))) [
  | inl e ↦ rw e (set_file_ne (suc m) j none d (λ x. n (sym x)))
  | inr e ↦ rw e
]

less_one : (m : ℕ) → suc m - 1 ≡ m
less_one m = omega arith

module _ (m : ℕ) (d : Disk) where
  in_steps :
      (j : ℕ)
      → rotate (suc m) d j
        ≡ replace 0 1
            (shift_parts m (if part_exists (suc m) d then set_file (suc m) none d else d))
            j
  unfolding rotate
  in_steps j =
      ap
        (λ k.
          replace 0 1 (shift_parts k (if part_exists (suc m) d then set_file (suc m) none d else d))
            j)
        (less_one m)

  pub rotate_live : rotate (suc m) d 0 ≡ none
  unfolding replace
  rotate_live = in_steps 0 ∙ set_file_self 0 none _

  pub rotate_newest : rotate (suc m) d 1 ≡ d 0
  unfolding replace
  rotate_newest =
      in_steps 1
      ∙ set_file_ne 0 1 none _ (λ e. omega arith)
      ∙ set_file_self 1 _ _
      ∙ shift_live m _
      ∙ freed_ne m 0 d (λ e. omega arith)

  pub rotate_up : (j : ℕ) → j < m → rotate (suc m) d (suc (suc j)) ≡ d (suc j)
  unfolding replace
  rotate_up j l =
      in_steps (suc (suc j))
      ∙ set_file_ne 0 (suc (suc j)) none _ (λ e. omega arith)
      ∙ set_file_ne 1 (suc (suc j)) _ _ (λ e. omega arith)
      ∙ shift_up m j _ (freed_self m d) l
      ∙ freed_ne m (suc j) d (λ e. omega arith)

  pub rotate_above : (j : ℕ) → m < j → rotate (suc m) d (suc j) ≡ d (suc j)
  unfolding replace
  rotate_above j l =
      in_steps (suc j)
      ∙ set_file_ne 0 (suc j) none _ (λ e. omega arith)
      ∙ set_file_ne 1 (suc j) _ _ (λ e. omega arith)
      ∙ shift_rest m (suc j) _ (omega arith)
      ∙ freed_ne m (suc j) d (λ e. omega arith)
