-- ===== src/Mqtt/Broker.antt =====
-- The broker behind the packets: retained messages, subscriptions, and who is sent what.
--
-- A client is known by a number. `decode` and `encode` are the UTF-8 codec of topics. `ok` says
-- whether the socket of the sender takes an answer; what a broadcast meets is swallowed, so a packet
-- stands in `sent` once it is handed to the socket.
pub mod Delivery
pub mod Forward
pub mod Retained
use ironharness.Prelude.{
  ℕ, zero, suc, ◌+◌, ◌*◌, ◌/◌, ◌%◌, Bool, true, false, ◌||◌, not, Option, none, some, List, [], ◌∷◌,
  ◌++◌, Bytes, length, take, drop, map, leb, ltb, ◌==◌, if◌then◌else◌,
}
use ironharness.Prelude.Search.{same_bytes}
use ironharness.Mqtt.{topic_matches, encode_packet, is_nil}

pub record Client : Type 0 where
  pub id : ℕ
  pub subscriptions : List Bytes

pub record Broker : Type 0 where
  pub retained : List (Bytes × Bytes)
  pub clients : List Client

pub data Ending : Type 0 where
  -- back to the loop of `serve`
  served : Ending
  connection_error : Ending
  -- UnicodeDecodeError
  value_error : Ending
  -- OverflowError of to_bytes
  overflow_error : Ending

pub record Handled : Type 0 where
  pub broker : Broker
  pub sent : List (ℕ × Bytes)
  pub ending : Ending

-- int.from_bytes(bytes, "big")
abbrev pub from_big : ℕ → Bytes → ℕ
from_big acc [] = acc
from_big acc (b ∷ bs) = from_big (acc * 256 + b) bs

-- self.broker.retained[topic] = rest, and its pop
unfoldable pub keep_retained : Bytes → Bytes → List (Bytes × Bytes) → List (Bytes × Bytes)
keep_retained topic payload [] = (topic, payload) ∷ []
keep_retained topic payload ((t, p) ∷ rest) =
    let later = keep_retained topic payload rest in
    if same_bytes t topic then (t, payload) ∷ rest else (t, p) ∷ later

unfoldable pub pop_retained : Bytes → List (Bytes × Bytes) → List (Bytes × Bytes)
pop_retained topic [] = []
pop_retained topic ((t, p) ∷ rest) =
    let later = pop_retained topic rest in if same_bytes t topic then rest else (t, p) ∷ later

unfoldable pub retain : Bytes → Bytes → Broker → Broker
retain topic payload b =
    if is_nil payload
    then record b { retained = pop_retained topic b.retained }
    else record b { retained = keep_retained topic payload b.retained }

-- any(topic_matches(f, topic) for f in filters)
unfoldable pub wanted : List Bytes → Bytes → Bool
wanted [] topic = false
wanted (f ∷ filters) topic = topic_matches f topic || wanted filters topic

-- len(t).to_bytes(2, "big") + t + payload
unfoldable pub publish_body : (Bytes → Bytes) → Bytes → Bytes → Option Bytes
publish_body encode topic payload =
    let t = encode topic in
    if ltb (length t) 65536 then some ((length t / 256) ∷ (length t % 256) ∷ t ++ payload) else none

-- The two loops of `_broadcast`.
unfoldable pub deliver : ℕ → Bytes → Bytes → List Client → List (ℕ × Bytes)
deliver exclude topic packet [] = []
deliver exclude topic packet (c ∷ clients) =
    let later = deliver exclude topic packet clients in
    if not (c.id == exclude)
    then (if wanted c.subscriptions topic then (c.id, packet) ∷ later else later)
    else later

unfoldable pub broadcast_body : ℕ → Bytes → Option Bytes → Broker → Handled
broadcast_body exclude topic none b = record { broker = b; sent = []; ending = overflow_error }
broadcast_body exclude topic (some body) b = record {
  broker = b;
  sent = deliver exclude topic (encode_packet 48 body) b.clients;
  ending = served;
}

unfoldable pub broadcast : (Bytes → Bytes) → Bytes → Bytes → ℕ → Broker → Handled
broadcast encode topic payload exclude b =
    broadcast_body exclude topic (publish_body encode topic payload) b

unfoldable pub after_sending : List (ℕ × Bytes) → Handled → Handled
after_sending first h = record h { sent = first ++ h.sent }

-- `_handle_publish` from the test of `retain` on.
unfoldable pub spread : (Bytes → Bytes) → Bool → Bytes → Bytes → ℕ → Broker → Handled
spread encode keep topic payload self b =
    broadcast encode topic payload self (if keep then retain topic payload b else b)

-- `_handle_publish` behind the decoding of the topic.
unfoldable pub publish_topic : (Bytes → Bytes) → Bool → ℕ → ℕ → Bytes → Bytes → Broker → Handled
publish_topic encode ok self flags topic rest b =
    let keep = flags % 2 == 1 in
    let qos = flags / 2 % 4 in
    if qos == 1
    then (if ok
        then after_sending ((self, encode_packet 64 (take 2 rest)) ∷ [])
            (spread encode keep topic (drop 2 rest) self b)
        else record { broker = b; sent = []; ending = connection_error })
    else if not (qos == 0)
    then record { broker = b; sent = []; ending = served }
    else spread encode keep topic rest self b

unfoldable pub publish_decoded :
    (Bytes → Bytes) → Bool → ℕ → ℕ → Option Bytes → Bytes → Broker → Handled
publish_decoded encode ok self flags none rest b = record {
  broker = b;
  sent = [];
  ending = value_error;
}
publish_decoded encode ok self flags (some topic) rest b =
    publish_topic encode ok self flags topic rest b

unfoldable pub handle_publish :
    (Bytes → Option Bytes) → (Bytes → Bytes) → Bool → ℕ → ℕ → Bytes → Broker → Handled
handle_publish decode encode ok self flags body b =
    let tlen = from_big 0 (take 2 body) in
    publish_decoded encode ok self flags (decode (take tlen (drop 2 body)))
      (drop tlen (drop 2 body)) b

-- The loop of `_handle_subscribe` over what is left of the body, `none` where a topic does not
-- decode. A round takes three bytes at least, or all that are left, so as much fuel as there are
-- bytes is enough.
unfoldable pub read_filters : (Bytes → Option Bytes) → ℕ → Bytes → Option (List Bytes)
read_filters decode zero rest = some []
read_filters decode (suc fuel) [] = some []
read_filters decode (suc fuel) (x ∷ xs) =
    let tlen = from_big 0 (take 2 (x ∷ xs)) in
    let behind = read_filters decode fuel (drop (3 + tlen) (x ∷ xs)) in
    elim (decode (take tlen (drop 2 (x ∷ xs)))) [
      | none ↦ none
      | some pattern ↦ elim behind [ none ↦ none | some filters ↦ some (pattern ∷ filters) ]
    ]

-- self.subscriptions.extend(filters)
unfoldable pub extend : ℕ → List Bytes → List Client → List Client
extend self filters [] = []
extend self filters (c ∷ clients) =
    let later = extend self filters clients in
    if c.id == self
    then record c { subscriptions = c.subscriptions ++ filters } ∷ clients
    else c ∷ later

-- One message to a client, before what `later` does.
unfoldable pub send_one : ℕ → Option Bytes → Broker → Handled → Handled
send_one self none b later = record { broker = b; sent = []; ending = overflow_error }
send_one self (some body) b later = after_sending ((self, encode_packet 48 body) ∷ []) later

-- The retained messages for new masks, in the order of the registry.
unfoldable pub replay_retained :
    (Bytes → Bytes) → ℕ → List Bytes → List (Bytes × Bytes) → Broker → Handled
replay_retained encode self filters [] b = record { broker = b; sent = []; ending = served }
replay_retained encode self filters ((t, p) ∷ rest) b =
    let later = replay_retained encode self filters rest b in
    if wanted filters t then send_one self (publish_body encode t p) b later else later

abbrev zeros : {A : Type 0} → List A → Bytes
zeros [] = []
zeros (_ ∷ rest) = 0 ∷ zeros rest

unfoldable pub subscribe_to :
    (Bytes → Bytes) → Bool → ℕ → Bytes → Option (List Bytes) → Broker → Handled
subscribe_to encode ok self packet_id none b = record {
  broker = b;
  sent = [];
  ending = value_error;
}
subscribe_to encode ok self packet_id (some filters) b =
    let b' : Broker = record b { clients = extend self filters b.clients } in
    if ok
    then after_sending ((self, encode_packet 144 (packet_id ++ zeros filters)) ∷ [])
        (replay_retained encode self filters b.retained b')
    else record { broker = b'; sent = []; ending = connection_error }

unfoldable pub handle_subscribe :
    (Bytes → Option Bytes) → (Bytes → Bytes) → Bool → ℕ → Bytes → Broker → Handled
handle_subscribe decode encode ok self body b =
    subscribe_to encode ok self (take 2 body) (read_filters decode (length body) (drop 2 body)) b
