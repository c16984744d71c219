-- ===== src/Mqtt/Broker/Retained.antt =====
-- Retained messages reach the clients that subscribe later.
use ironharness.Prelude.{
  ℕ, ◌≡◌, refl, sym, ap, ap₂, ◌∙◌, ◌⊎◌, inl, inr, subst, true, false, Option, some, List, [], ◌∷◌,
  Bytes, length, take, drop, if_false, if_ind,
}
use ironharness.Prelude.Search.{same_bytes, same_bytes→eq}
use mathlib.Core.List.{Memᴰ}
use ironharness.Mqtt.{encode_packet, is_nil}
use ironharness.Mqtt.Broker.{
  Broker, Handled, keep_retained, retain, publish_body, read_filters, replay_retained, subscribe_to,
  handle_subscribe, extend, after_sending, send_one, wanted,
}
use ironharness.Mqtt.Broker.Delivery.{Subscribed, wanted_complete}

-- No topic of the registry is too long to be sent.
abbrev pub Framed : (Bytes → Bytes) → List (Bytes × Bytes) → Type 0
Framed encode r =
    (t p : Bytes) → Memᴰ (t, p) r → (body : Bytes) × (publish_body encode t p ≡ some body)

kept :
    (topic payload : Bytes) (r : List (Bytes × Bytes))
    → Memᴰ (topic, payload) (keep_retained topic payload r)
unfolding keep_retained
kept topic payload [] = Memᴰ.head refl
kept topic payload ((t, p) ∷ rest) =
    if_ind (λ (l : List (Bytes × Bytes)). Memᴰ (topic, payload) l) (same_bytes t topic)
      (λ e. Memᴰ.head (ap (λ x. (x, payload)) (sym (same_bytes→eq t topic e))))
      (λ _. Memᴰ.tail (kept topic payload rest))

abbrev FromOld : Bytes → Bytes → List (Bytes × Bytes) → List (Bytes × Bytes) → Type 0
FromOld topic payload r l = (x : Bytes × Bytes) → Memᴰ x l → (x ≡ (topic, payload)) ⊎ Memᴰ x r

replaced :
    (topic payload t p : Bytes) (rest : List (Bytes × Bytes))
    → same_bytes t topic ≡ true
    → FromOld topic payload ((t, p) ∷ rest) ((t, payload) ∷ rest)
replaced topic payload t p rest e x (Memᴰ.head same) =
    inl (same ∙ ap (λ y. (y, payload)) (same_bytes→eq t topic e))
replaced topic payload t p rest e x (Memᴰ.tail there) = inr (Memᴰ.tail there)

behind :
    (topic payload t p : Bytes) (rest l : List (Bytes × Bytes))
    → FromOld topic payload rest l
    → FromOld topic payload ((t, p) ∷ rest) ((t, p) ∷ l)
behind topic payload t p rest l ih x (Memᴰ.head same) = inr (Memᴰ.head same)
behind topic payload t p rest l ih x (Memᴰ.tail there) = elim (ih x there) [
  | inl new ↦ inl new
  | inr old ↦ inr (Memᴰ.tail old)
]

alone : (topic payload : Bytes) → FromOld topic payload [] ((topic, payload) ∷ [])
alone topic payload x (Memᴰ.head e) = inl e
alone topic payload x (Memᴰ.tail there) = inr there

from_old :
    (topic payload : Bytes) (r : List (Bytes × Bytes))
    → FromOld topic payload r (keep_retained topic payload r)
unfolding keep_retained
from_old topic payload [] = alone topic payload
from_old topic payload ((t, p) ∷ rest) =
    if_ind (FromOld topic payload ((t, p) ∷ rest)) (same_bytes t topic)
      (λ e x there. replaced topic payload t p rest e x there)
      (λ _ x there. behind topic payload t p rest _ (from_old topic payload rest) x there)

retain-Framed :
    (encode : Bytes → Bytes) (topic payload message : Bytes) (r : List (Bytes × Bytes))
    → publish_body encode topic payload ≡ some message
    → Framed encode r
    → Framed encode (keep_retained topic payload r)
retain-Framed encode topic payload message r e f t p there =
    elim (from_old topic payload r (t, p) there) [
      | inl same ↦
          (message, ap₂ (publish_body encode) (ap (λ x. x.0) same) (ap (λ x. x.1) same) ∙ e)
      | inr old ↦ f t p old
    ]

module _ (encode : Bytes → Bytes) (self : ℕ) (filters : List Bytes) (b : Broker) where
  abbrev Sent : Bytes → Handled → Type 0
  Sent message h = Memᴰ (self, encode_packet 48 message) h.sent

  -- One retained message, in front of the ones behind it.
  first-Sent :
      (t p message : Bytes) (rest : List (Bytes × Bytes))
      → wanted filters t ≡ true
      → publish_body encode t p ≡ some message
      → Sent message (replay_retained encode self filters ((t, p) ∷ rest) b)
  unfolding replay_retained send_one after_sending
  first-Sent t p message rest w e =
      let later = replay_retained encode self filters rest b in
      if_ind (Sent message) (wanted filters t)
        (λ _. subst (λ o. Sent message (send_one self o b later)) (sym e) (Memᴰ.head refl))
        (λ f. cc (w, f))

  later-Sent :
      (t p other message : Bytes) (rest : List (Bytes × Bytes))
      → publish_body encode t p ≡ some other
      → Sent message (replay_retained encode self filters rest b)
      → Sent message (replay_retained encode self filters ((t, p) ∷ rest) b)
  unfolding replay_retained send_one after_sending
  later-Sent t p other message rest e k =
      let later = replay_retained encode self filters rest b in
      if_ind (Sent message) (wanted filters t)
        (λ _. subst (λ o. Sent message (send_one self o b later)) (sym e) (Memᴰ.tail k)) (λ _. k)

  replay_retained-Sent :
      (t p message : Bytes) (r : List (Bytes × Bytes))
      → Framed encode r
      → wanted filters t ≡ true
      → publish_body encode t p ≡ some message
      → Memᴰ (t, p) r
      → Sent message (replay_retained encode self filters r b)
  replay_retained-Sent t p message [] f w e there = elim there [ ]
  replay_retained-Sent t p message ((u, q) ∷ rest) f w e (Memᴰ.head same) =
      first-Sent u q message rest (ap (λ x. wanted filters x.0) (sym same) ∙ w)
        (ap (λ x. publish_body encode x.0 x.1) (sym same) ∙ e)
  replay_retained-Sent t p message ((u, q) ∷ rest) f w e (Memᴰ.tail there) =
      let (other, o) = f u q (Memᴰ.head refl) in
      later-Sent u q other message rest o
        (replay_retained-Sent t p message rest (λ a c x. f a c (Memᴰ.tail x)) w e there)

retained_of :
    (topic payload : Bytes) (b : Broker)
    → is_nil payload ≡ false
    → (retain topic payload b).retained ≡ keep_retained topic payload b.retained
unfolding retain
retained_of topic payload b full = ap (λ (x : Broker). x.retained) (if_false _ _ full)

-- Once a message with a payload is retained, a client that subscribes with a mask that fits its
-- topic is sent that message, whatever else is retained, if its masks decode, its socket takes the
-- answers and no retained topic is too long to be sent.
pub handle_subscribe-Sent :
    (decode : Bytes → Option Bytes) (encode : Bytes → Bytes) (self : ℕ) (body : Bytes)
    (filters : List Bytes) (topic payload message : Bytes) (b : Broker)
    → read_filters decode (length body) (drop 2 body) ≡ some filters
    → Subscribed filters topic
    → is_nil payload ≡ false
    → publish_body encode topic payload ≡ some message
    → Framed encode b.retained
    → Memᴰ
        (self, encode_packet 48 message)
        (handle_subscribe decode encode true self body (retain topic payload b)).sent
unfolding handle_subscribe subscribe_to after_sending
handle_subscribe-Sent decode encode self body filters topic payload message b d (g, there, m) full e
      f =
    let b' = retain topic payload b in
    let b'' : Broker = record b' { clients = extend self filters b'.clients } in
    let P : Handled → Type 0 = λ h. Memᴰ (self, encode_packet 48 message) h.sent in
    subst (λ o. P (subscribe_to encode true self (take 2 body) o b')) (sym d)
      (Memᴰ.tail (
        subst (λ r. P (replay_retained encode self filters r b''))
          (sym (retained_of topic payload b full))
          (replay_retained-Sent encode self filters b'' topic payload message
            (keep_retained topic payload b.retained)
            (retain-Framed encode topic payload message b.retained e f)
            (wanted_complete g filters topic there m) e (kept topic payload b.retained))))
