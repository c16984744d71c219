-- ===== src/Mqtt/Broker/Delivery.antt =====
-- Who is sent a published message, and what.
use ironharness.Prelude.{
  ℕ, ◌≡◌, ◌≢◌, ◌↔◌, refl, sym, ap, ap₂, ◌∙◌, subst, Bool, true, false, ◌||◌, not, List, [], ◌∷◌,
  Bytes, ◌==◌, ==_iff, if_ind, Bool-cases, inl, inr,
}
use mathlib.Core.List.{Memᴰ}
use ironharness.Mqtt.{topic_matches, split}
use ironharness.Mqtt.Topics.{Matches, topic_matches_iff}
use ironharness.Mqtt.Broker.{Client, wanted, deliver}

-- One of the masks stands for the topic.
abbrev pub Subscribed : List Bytes → Bytes → Type 0
Subscribed filters topic = (f : Bytes) × Memᴰ f filters × Matches (split f) (split topic)

or_left : (a b : Bool) → a ≡ true → a || b ≡ true
or_left a b e = cc

or_right : (a b : Bool) → b ≡ true → a || b ≡ true
or_right true b e = refl
or_right false b e = e

wanted_sound :
    (filters : List Bytes) (topic : Bytes) → wanted filters topic ≡ true → Subscribed filters topic
unfolding wanted
wanted_sound [] topic e = cc
wanted_sound (f ∷ fs) topic e = elim (Bool-cases (topic_matches f topic)) [
  | inl m ↦ (f, Memᴰ.head refl, (topic_matches_iff f topic).0 m)
  | inr m ↦
      let (g, there, ok) = wanted_sound fs topic (ap (λ b. b || wanted fs topic) (sym m) ∙ e) in
      (g, Memᴰ.tail there, ok)
]

pub wanted_complete :
    (f : Bytes) (filters : List Bytes) (topic : Bytes)
    → Memᴰ f filters
    → Matches (split f) (split topic)
    → wanted filters topic ≡ true
unfolding wanted
wanted_complete f [] topic there m = elim there [ ]
wanted_complete f (g ∷ gs) topic (Memᴰ.head e) m =
    or_left _ _ ((topic_matches_iff g topic).1 (subst (λ x. Matches (split x) (split topic)) e m))
wanted_complete f (g ∷ gs) topic (Memᴰ.tail there) m =
    or_right _ _ (wanted_complete f gs topic there m)

-- A client other than the sender that has a fitting mask.
abbrev pub Receives : ℕ → ℕ → Bytes → List Client → Type 0
Receives n exclude topic clients =
    (c : Client) × Memᴰ c clients × (c.id ≡ n) × (c.id ≢ exclude) × Subscribed c.subscriptions topic

abbrev pub Sends : ℕ → Bytes → Bytes → List (ℕ × Bytes) → List Client → Type 0
Sends exclude topic packet out clients =
    (n : ℕ) (q : Bytes) → Memᴰ (n, q) out ↔ ((q ≡ packet) × Receives n exclude topic clients)

other : (a b : ℕ) → (a == b) ≡ false → a ≢ b
other a b f e = cc (f, (==_iff a b).1 e)

not_equal : (a b : ℕ) → a ≢ b → (a == b) ≡ false
not_equal a b n = elim (Bool-cases (a == b)) [ inl e ↦ absurd (n ((==_iff a b).0 e)) | inr e ↦ e ]

negated : (b : Bool) → not b ≡ true → b ≡ false
negated false e = refl
negated true e = sym e

module _ (exclude : ℕ) (topic packet : Bytes) where
  later :
      {n : ℕ} {cs : List Client} (c : Client)
      → Receives n exclude topic cs
      → Receives n exclude topic (c ∷ cs)
  later c (d, there, same, apart, sub) = (d, Memᴰ.tail there, same, apart, sub)

  remaining :
      {n : ℕ} {cs : List Client} (c : Client)
      → (c.id ≢ exclude → Subscribed c.subscriptions topic → ⊥)
      → Receives n exclude topic (c ∷ cs)
      → Receives n exclude topic cs
  remaining c unfit (d, Memᴰ.tail there, same, apart, sub) = (d, there, same, apart, sub)
  remaining c unfit (d, Memᴰ.head e, same, apart, sub) = absurd (
      unfit (subst (λ x. x.id ≢ exclude) e apart)
        (subst (λ x. Subscribed x.subscriptions topic) e sub))

  -- A client that is not sent the packet adds nothing.
  skipped :
      (c : Client) (out : List (ℕ × Bytes)) (cs : List Client)
      → (c.id ≢ exclude → Subscribed c.subscriptions topic → ⊥)
      → Sends exclude topic packet out cs
      → Sends exclude topic packet out (c ∷ cs)
  skipped c out cs unfit ih n q = (
    λ there. let (e, r) = (ih n q).0 there in (e, later c r),
    λ (e, r). (ih n q).1 (e, remaining c unfit r),
  )

  head_or_later :
      (c : Client) (out : List (ℕ × Bytes)) (cs : List Client)
      → c.id ≢ exclude
      → Subscribed c.subscriptions topic
      → Sends exclude topic packet out cs
      → (n : ℕ) (q : Bytes) → Memᴰ (n, q) ((c.id, packet) ∷ out)
      → (q ≡ packet) × Receives n exclude topic (c ∷ cs)
  head_or_later c out cs apart sub ih n q (Memᴰ.head e) =
      (ap (λ x. x.1) e, (c, Memᴰ.head refl, sym (ap (λ x. x.0) e), apart, sub))
  head_or_later c out cs apart sub ih n q (Memᴰ.tail there) =
      let (e, r) = (ih n q).0 there in (e, later c r)

  placed :
      (c : Client) (out : List (ℕ × Bytes)) (cs : List Client)
      → Sends exclude topic packet out cs
      → (n : ℕ) (q : Bytes) → (q ≡ packet) × Receives n exclude topic (c ∷ cs)
      → Memᴰ (n, q) ((c.id, packet) ∷ out)
  placed c out cs ih n q (e, (d, Memᴰ.head f, same, apart, sub)) =
      Memᴰ.head (ap₂ (λ a b. (a, b)) (sym same ∙ ap (λ (x : Client). x.id) f) e)
  placed c out cs ih n q (e, (d, Memᴰ.tail there, same, apart, sub)) =
      Memᴰ.tail ((ih n q).1 (e, (d, there, same, apart, sub)))

  sent :
      (c : Client) (out : List (ℕ × Bytes)) (cs : List Client)
      → c.id ≢ exclude
      → Subscribed c.subscriptions topic
      → Sends exclude topic packet out cs
      → Sends exclude topic packet ((c.id, packet) ∷ out) (c ∷ cs)
  sent c out cs apart sub ih n q = (head_or_later c out cs apart sub ih n q, placed c out cs ih n q)

  pub deliver-Sends :
      (clients : List Client)
      → Sends exclude topic packet (deliver exclude topic packet clients) clients
  unfolding deliver
  deliver-Sends [] =
      λ n q. (λ there. elim there [ ], λ (e, (c, there, same, apart, sub)). elim there [ ])
  deliver-Sends (c ∷ cs) =
      let P : List (ℕ × Bytes) → Type 0 = λ out. Sends exclude topic packet out (c ∷ cs) in
      let ih = deliver-Sends cs in
      if_ind P (not (c.id == exclude))
        (λ a.
          if_ind P (wanted c.subscriptions topic)
            (λ w. sent c _ cs (other _ _ (negated _ a)) (wanted_sound _ _ w) ih)
            (λ w. skipped c _ cs (λ _ (f, there, m). cc (w, wanted_complete f _ topic there m)) ih))
        (λ a. skipped c _ cs (λ n _. cc (a, not_equal _ _ n)) ih)
