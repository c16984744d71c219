-- ===== src/Mqtt/Topics.antt =====
-- Topic masks, against a relation that says what they mean.
use ironharness.Prelude.{
  ℕ, ◌≡◌, ◌≢◌, ◌↔◌, refl, sym, ap, ap₂, ◌∙◌, Bool, true, false, ◌&&◌, not, List, [], ◌∷◌, ◌++◌,
  Bytes, ◌==◌, ==_iff, if_false, if_ind, Bool-cases, inl, inr, subst,
}
use ironharness.Prelude.Search.{same_bytes, same_bytes→eq, same_bytes_refl}
use ironharness.Mqtt.{slash, plus, hash, push, split, is_nil, levels_match, topic_matches}

-- '+' stands for one level of any text, '#' in the last place for all levels that are left, and any
-- other level for itself.
pub data Matches : List Bytes → List Bytes → Type 0 where
  done : Matches [] []
  tail : (ts : List Bytes) → Matches (hash ∷ []) ts
  any : {ps ts : List Bytes} (t : Bytes) → Matches ps ts → Matches (plus ∷ ps) (t ∷ ts)
  level : {ps ts : List Bytes} (t : Bytes) → t ≢ hash → Matches ps ts → Matches (t ∷ ps) (t ∷ ts)

same_false : (a b : Bytes) → same_bytes a b ≡ false → a ≢ b
same_false a b f e = cc (f, ap (same_bytes a) e, same_bytes_refl a)

same_true : (a b : Bytes) → a ≢ b → same_bytes a b ≡ false
same_true a b n = elim (Bool-cases (same_bytes a b)) [
  | inl t ↦ absurd (n (same_bytes→eq a b t))
  | inr f ↦ f
]

-- The code's test of two levels that are not '#'.
abbrev differ : Bytes → Bytes → Bool
differ p t = not (same_bytes p plus) && not (same_bytes p t)

hash_level :
    (p : Bytes) (ps ts : List Bytes)
    → same_bytes p hash ≡ true
    → is_nil ps ≡ true
    → Matches (p ∷ ps) ts
hash_level p [] ts e n = subst (λ q. Matches (q ∷ []) ts) (sym (same_bytes→eq p hash e)) (tail ts)
hash_level p (_ ∷ _) ts e n = cc

plain_level :
    (p t : Bytes) {ps ts : List Bytes}
    → same_bytes p hash ≡ false
    → differ p t ≡ false
    → Matches ps ts
    → Matches (p ∷ ps) (t ∷ ts)
plain_level p t {ps} {ts} h d m = elim (Bool-cases (same_bytes p plus)) [
  | inl a ↦ subst (λ q. Matches (q ∷ ps) (t ∷ ts)) (sym (same_bytes→eq p plus a)) (any t m)
  | inr b ↦ elim (Bool-cases (same_bytes p t)) [
    | inl c ↦
        subst (λ q. Matches (p ∷ ps) (q ∷ ts)) (same_bytes→eq p t c)
          (level p (same_false p hash h) m)
    | inr c ↦ cc (d, b, c)
  ]
]

sound : (ps ts : List Bytes) → levels_match ps ts ≡ true → Matches ps ts
unfolding levels_match
sound [] [] = λ _. done
sound [] (t ∷ ts) = λ e. cc
sound (p ∷ ps) [] =
    if_ind (λ b. b ≡ true → Matches (p ∷ ps) []) (same_bytes p hash) (hash_level p ps [])
      (λ h e. cc)
sound (p ∷ ps) (t ∷ ts) =
    let Q : Bool → Type 0 = λ b. b ≡ true → Matches (p ∷ ps) (t ∷ ts) in
    if_ind Q (same_bytes p hash) (hash_level p ps (t ∷ ts))
      (λ h. if_ind Q (differ p t) (λ d e. cc) (λ d e. plain_level p t h d (sound ps ts e)))

itself : (t : Bytes) → differ t t ≡ false
itself t = elim (Bool-cases (same_bytes t plus)) [
  | inl e ↦ cc (e, same_bytes_refl t)
  | inr e ↦ cc (e, same_bytes_refl t)
]

complete : {ps ts : List Bytes} → Matches ps ts → levels_match ps ts ≡ true
unfolding levels_match same_bytes
complete done = refl
complete (tail []) = refl
complete (tail (t ∷ ts)) = refl
complete (any t m) = complete m
complete (level t n m) = if_false _ _ (same_true t hash n) ∙ if_false _ _ (itself t) ∙ complete m

-- A topic matches a mask, level by level, exactly when the relation above says so: '+' for one
-- level, '#' in the last place for all that are left.
pub topic_matches_iff :
    (pattern topic : Bytes)
    → (topic_matches pattern topic ≡ true) ↔ Matches (split pattern) (split topic)
unfolding topic_matches
topic_matches_iff pattern topic = (sound (split pattern) (split topic), λ m. complete m)

-- The inverse of `split`.
join : List Bytes → Bytes
join [] = []
join (x ∷ []) = x
join (x ∷ y ∷ rest) = x ++ slash ∷ join (y ∷ rest)

join_open : (ls : List Bytes) → is_nil ls ≡ false → join ([] ∷ ls) ≡ slash ∷ join ls
unfolding join
join_open [] e = cc
join_open (x ∷ xs) e = refl

join-push : (c : ℕ) (ls : List Bytes) → is_nil ls ≡ false → join (push c ls) ≡ c ∷ join ls
unfolding join
join-push c [] e = cc
join-push c (x ∷ []) e = refl
join-push c (x ∷ y ∷ rest) e = refl

nil-push : (c : ℕ) (ls : List Bytes) → is_nil (push c ls) ≡ false
nil-push c [] = refl
nil-push c (x ∷ xs) = refl

nil-split : (s : Bytes) → is_nil (split s) ≡ false
unfolding split
nil-split [] = refl
nil-split (c ∷ cs) =
    if_ind (λ (ls : List Bytes). is_nil ls ≡ false) (c == slash) (λ _. refl)
      (λ _. nil-push c (split cs))

join-split : (s : Bytes) → join (split s) ≡ s
unfolding split
join-split [] = unfold join in refl
join-split (c ∷ cs) =
    if_ind (λ ls. join ls ≡ c ∷ cs) (c == slash)
      (λ e.
        join_open (split cs) (nil-split cs)
        ∙ ap₂ (λ x xs. x ∷ xs) (sym ((==_iff c slash).0 e)) (join-split cs))
      (λ _. join-push c (split cs) (nil-split cs) ∙ ap (λ xs. c ∷ xs) (join-split cs))

split_inj : (a b : Bytes) → split a ≡ split b → a ≡ b
split_inj a b e = sym (join-split a) ∙ ap join e ∙ join-split b

-- No level is a wildcard.
abbrev pub Plain : List Bytes → Type 0
Plain [] = Unit {0}
Plain (p ∷ ps) = (p ≢ plus) × (p ≢ hash) × Plain ps

Plain-equal : {ps ts : List Bytes} → Matches ps ts → Plain ps → ps ≡ ts
Plain-equal done h = refl
Plain-equal (tail ts) (_, n, _) = absurd (n refl)
Plain-equal (any t m) (n, _, _) = absurd (n refl)
Plain-equal (level t _ m) (_, _, h) = ap (λ ls. t ∷ ls) (Plain-equal m h)

matches-Plain : (ps : List Bytes) → Plain ps → Matches ps ps
matches-Plain [] h = done
matches-Plain (p ∷ ps) (_, n, h) = level p n (matches-Plain ps h)

-- A mask with no wildcard among its levels matches the topic that is written like it, and no
-- other.
pub topic_matches-Plain :
    (pattern topic : Bytes)
    → Plain (split pattern)
    → (topic_matches pattern topic ≡ true) ↔ (pattern ≡ topic)
unfolding topic_matches
topic_matches-Plain pattern topic h = (
  λ e. split_inj pattern topic (Plain-equal (sound (split pattern) (split topic) e) h),
  λ e.
      complete (subst (λ t. Matches (split pattern) (split t)) e (matches-Plain (split pattern) h)),
)
