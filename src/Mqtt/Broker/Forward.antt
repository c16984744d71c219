-- ===== src/Mqtt/Broker/Forward.antt =====
-- A published message reaches the others as it was sent.
use ironharness.Prelude.{
  ℕ, ◌+◌, ◌*◌, ◌/◌, ◌%◌, ◌≡◌, refl, sym, ap, ap₂, ◌∙◌, subst, Bool, true, false, not, Option, some,
  some_inj, List, ◌∷◌, ◌++◌, Bytes, length, take, drop, ltb, ◌==◌, if◌then◌else◌, if_false, if_ind,
  arith, take-append_self, drop-append_self,
}
use ironharness.Mqtt.{encode_packet, is_nil}
use ironharness.Mqtt.Broker.{
  Client, Broker, Handled, served, retain, publish_body, broadcast, broadcast_body, spread,
  publish_topic, publish_decoded, handle_publish,
}
use ironharness.Mqtt.Broker.Delivery.{Sends, deliver-Sends}

-- The body with the topic's bytes `t`.
abbrev frame : Bytes → Bytes → Bytes
frame t payload = (length t / 256) ∷ (length t % 256) ∷ t ++ payload

framed :
    (encode : Bytes → Bytes) (topic payload body : Bytes)
    → publish_body encode topic payload ≡ some body
    → body ≡ frame (encode topic) payload
unfolding publish_body
framed encode topic payload body =
    if_ind (λ (o : Option Bytes). o ≡ some body → body ≡ frame (encode topic) payload)
      (ltb (length (encode topic)) 65536) (λ _ e. sym (some_inj e)) (λ _ e. cc)

two_bytes : (n : ℕ) → (0 * 256 + n / 256) * 256 + n % 256 ≡ n
two_bytes n = omega arith

-- The handler takes the topic and the payload out of the frame.
handle-frame :
    (decode : Bytes → Option Bytes) (encode : Bytes → Bytes) (ok : Bool) (self flags : ℕ)
    (t topic payload : Bytes) (b : Broker)
    → decode t ≡ some topic
    → handle_publish decode encode ok self flags (frame t payload) b
      ≡ publish_topic encode ok self flags topic payload b
unfolding handle_publish publish_decoded
handle-frame decode encode ok self flags t topic payload b d =
    let text = t ++ payload in
    let size = two_bytes (length t) in
    ap₂ (λ (o : Option Bytes) r. publish_decoded encode ok self flags o r b)
      (ap (λ n. decode (take n text)) size ∙ ap decode (take-append_self t payload) ∙ d)
      (ap (λ n. drop n text) size ∙ drop-append_self t payload)

spread-clients :
    (keep : Bool) (topic payload : Bytes) (b : Broker)
    → (if keep then retain topic payload b else b).clients ≡ b.clients
unfolding retain
spread-clients false topic payload b = refl
spread-clients true topic payload b =
    if_ind (λ (x : Broker). x.clients ≡ b.clients) (is_nil payload) (λ _. refl) (λ _. refl)

-- The others with a fitting mask are sent `body`, and no one else anything.
abbrev pub Forwards : ℕ → Bytes → Bytes → List Client → Handled → Type 0
Forwards self topic body clients h =
    (h.ending ≡ served)
    × (h.broker.clients ≡ clients)
    × Sends self topic (encode_packet 48 body) h.sent clients

broadcast-Forwards :
    (encode : Bytes → Bytes) (self : ℕ) (topic payload body : Bytes) (b : Broker)
    → publish_body encode topic payload ≡ some body
    → Forwards self topic body b.clients (broadcast encode topic payload self b)
unfolding broadcast broadcast_body
broadcast-Forwards encode self topic payload body b e =
    subst (λ o. Forwards self topic body b.clients (broadcast_body self topic o b)) (sym e)
      (refl, refl, deliver-Sends self topic (encode_packet 48 body) b.clients)

publish_topic-spread :
    (encode : Bytes → Bytes) (ok : Bool) (self flags : ℕ) (topic rest : Bytes) (b : Broker)
    → flags / 2 % 4 ≡ 0
    → publish_topic encode ok self flags topic rest b
      ≡ spread encode (flags % 2 == 1) topic rest self b
unfolding publish_topic
publish_topic-spread encode ok self flags topic rest b q =
    if_false _ _ (ap (λ n. n == 1) q) ∙ if_false _ _ (ap (λ n. not (n == 0)) q)

spread-Forwards :
    (encode : Bytes → Bytes) (keep : Bool) (self : ℕ) (topic payload body : Bytes) (b : Broker)
    → publish_body encode topic payload ≡ some body
    → Forwards self topic body b.clients (spread encode keep topic payload self b)
unfolding spread
spread-Forwards encode keep self topic payload body b e =
    let b' = if keep then retain topic payload b else b in
    subst (λ cs. Forwards self topic body cs (broadcast encode topic payload self b'))
      (spread-clients keep topic payload b) (broadcast-Forwards encode self topic payload body b' e)

-- A message of QoS 0 whose body a client has built from a topic and a payload ends in the loop
-- again, leaves the clients as they are, and is sent to just those other clients that have a
-- fitting mask, each of them getting the same body, retained or not.
pub handle_publish-Forwards :
    (decode : Bytes → Option Bytes) (encode : Bytes → Bytes) (ok : Bool) (self flags : ℕ)
    (topic payload body : Bytes) (b : Broker)
    → decode (encode topic) ≡ some topic
    → publish_body encode topic payload ≡ some body
    → flags / 2 % 4 ≡ 0
    → Forwards self topic body b.clients (handle_publish decode encode ok self flags body b)
handle_publish-Forwards decode encode ok self flags topic payload body b d e q =
    let same =
      ap (λ x. handle_publish decode encode ok self flags x b) (framed encode topic payload body e)
      ∙ handle-frame decode encode ok self flags (encode topic) topic payload b d
      ∙ publish_topic-spread encode ok self flags topic payload b q in
    subst (Forwards self topic body b.clients) (sym same)
      (spread-Forwards encode (flags % 2 == 1) self topic payload body b e)
