-- ===== src/MqttTransport/Inbox.antt =====
-- The inbox of the MQTT transport keeps the newest messages, in their order.
use ironharness.Prelude.{
  ℕ, ◌-◌, ◌≤◌, ◌≡◌, sym, ap, ◌∙◌, List, [], ◌∷◌, ◌++◌, length, drop, arith, append-nil,
  append_assoc, length-append, length-drop, drop-drop, drop-append_le,
}
use ironharness.MqttTransport.{Message, MqttTransport, append, on_message}

-- The last `size` messages.
newest : ℕ → List Message → List Message
newest size messages = drop (length messages - size) messages

newest-newest :
    (size : ℕ) (xs ys : List Message) → newest size (newest size xs ++ ys) ≡ newest size (xs ++ ys)
unfolding newest
newest-newest size xs ys =
    let k = length xs - size in
    let joined : drop k xs ++ ys ≡ drop k (xs ++ ys) = sym (drop-append_le k xs ys (omega arith)) in
    ap (λ (ms : List Message). drop (length ms - size) ms) joined
    ∙ drop-drop (length (drop k (xs ++ ys)) - size) k (xs ++ ys)
    ∙ ap (λ j. drop j (xs ++ ys)) (omega (arith, length-drop k (xs ++ ys), length-append xs ys))

-- The messages that come in, one after the other.
delivered : ℕ → List Message → MqttTransport → MqttTransport
delivered size [] t = t
delivered size (m ∷ ms) t = delivered size ms (on_message size m t)

newest-whole : (size : ℕ) (xs : List Message) → length xs ≤ size → newest size xs ≡ xs
unfolding newest
newest-whole size xs le =
    let none_over : length xs - size ≡ 0 = omega arith in ap (λ k. drop k xs) none_over

kept_size : (size : ℕ) (m : Message) (inbox : List Message) → length (append size m inbox) ≤ size
unfolding append
kept_size size m inbox =
    omega (arith, length-drop (length (inbox ++ m ∷ []) - size) (inbox ++ m ∷ []))

-- Whatever comes in, an inbox that was not too long holds the newest messages of those that it held
-- and those that came, in their order.
delivered-newest :
    (size : ℕ) (ms : List Message) (t : MqttTransport)
    → length t.inbox ≤ size
    → (delivered size ms t).inbox ≡ newest size (t.inbox ++ ms)
unfolding delivered on_message append newest
delivered-newest size [] t le = sym (
    newest-whole size (t.inbox ++ []) (omega (arith, length-append t.inbox []))
    ∙ append-nil t.inbox)
delivered-newest size (m ∷ ms) t le =
    delivered-newest size ms (on_message size m t) (kept_size size m t.inbox)
    ∙ newest-newest size (t.inbox ++ m ∷ []) ms
    ∙ ap (newest size) (append_assoc t.inbox (m ∷ []) ms)
