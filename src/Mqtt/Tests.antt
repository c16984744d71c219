-- ===== src/Mqtt/Tests.antt =====
-- Masks and packets at concrete inputs: the topic "a/b" and the masks "a/b", "+/b" and "a/#".
use ironharness.Prelude.{some, ◌≡◌, ◌↔◌, refl, true, [], ◌∷◌, ◌++◌, Bytes, arith}
use ironharness.Prelude.Search.{same_bytes}
use ironharness.Mqtt.{
  split, levels_match, topic_matches, received, disconnected, read_exact, varint, varint_rounds,
  read_varint, encode_packet, read_body, with_type, read_packet,
}
use ironharness.Mqtt.Topics.{Matches, Plain, topic_matches_iff, topic_matches-Plain}
use ironharness.Mqtt.Broker.{
  Client, Broker, handle_publish, publish_decoded, publish_topic, spread, broadcast, broadcast_body,
  publish_body, deliver, wanted, retain, keep_retained, read_filters, handle_subscribe,
}
use ironharness.Mqtt.Broker.Delivery.{Subscribed}
use ironharness.Mqtt.Broker.Retained.{handle_subscribe-Sent}
use mathlib.Core.List.{Memᴰ}
use ironharness.Mqtt.Broker.Forward.{Forwards, handle_publish-Forwards}
use ironharness.Mqtt.Packets.{read_packet-encode_packet}

abbrev topic : Bytes
topic = 97 ∷ 47 ∷ 98 ∷ []

abbrev one_level : Bytes
one_level = 43 ∷ 47 ∷ 98 ∷ []

abbrev all_levels : Bytes
all_levels = 97 ∷ 47 ∷ 35 ∷ []

one_level_matches : topic_matches one_level topic ≡ true
unfolding topic_matches levels_match split same_bytes
one_level_matches = refl

all_levels_match : topic_matches all_levels (97 ∷ []) ≡ true
unfolding topic_matches levels_match split same_bytes
all_levels_match = refl

a_header_of_two_bytes : varint 201 200 ≡ 200 ∷ 1 ∷ []
unfolding varint
a_header_of_two_bytes = refl

a_cut_packet : read_packet (48 ∷ 2 ∷ 7 ∷ []) ≡ disconnected
unfolding read_packet read_varint varint_rounds read_body with_type read_exact
a_cut_packet = refl

topic_matches_iff_example :
    (topic_matches one_level topic ≡ true) ↔ Matches (split one_level) (split topic)
topic_matches_iff_example = topic_matches_iff one_level topic

topic-Plain : Plain (split topic)
unfolding split
topic-Plain = (λ e. cc, λ e. cc, (λ e. cc, λ e. cc, tt))

topic_matches-Plain_example : (topic_matches topic one_level ≡ true) ↔ (topic ≡ one_level)
topic_matches-Plain_example = topic_matches-Plain topic one_level topic-Plain

read_packet-encode_packet_example :
    read_packet (encode_packet 48 (0 ∷ 1 ∷ 97 ∷ 33 ∷ []) ++ 192 ∷ 0 ∷ [])
    ≡ received (48, 0 ∷ 1 ∷ 97 ∷ 33 ∷ []) (192 ∷ 0 ∷ [])
read_packet-encode_packet_example =
    read_packet-encode_packet 48 (0 ∷ 1 ∷ 97 ∷ 33 ∷ []) (192 ∷ 0 ∷ []) (omega arith)

abbrev sender : Client
sender = record { id = 1; subscriptions = all_levels ∷ [] }

abbrev listener : Client
listener = record { id = 2; subscriptions = (99 ∷ []) ∷ one_level ∷ [] }

abbrev two_clients : Broker
two_clients = record { retained = []; clients = sender ∷ listener ∷ [] }

-- The body of a message "!" on the topic.
abbrev message : Bytes
message = 0 ∷ 3 ∷ 97 ∷ 47 ∷ 98 ∷ 33 ∷ []

message_body : publish_body (λ t. t) topic (33 ∷ []) ≡ some message
unfolding publish_body
message_body = refl

listener_gets_it :
    (handle_publish some (λ t. t) true 1 1 message two_clients).sent ≡ (2, 48 ∷ 6 ∷ message) ∷ []
unfolding handle_publish publish_decoded publish_topic spread broadcast broadcast_body publish_body
    deliver wanted retain keep_retained encode_packet varint topic_matches levels_match split
    same_bytes
listener_gets_it = refl

handle_publish-Forwards_example :
    Forwards 1 topic message two_clients.clients
      (handle_publish some (λ t. t) true 1 1 message two_clients)
handle_publish-Forwards_example =
    handle_publish-Forwards some (λ t. t) true 1 1 topic (33 ∷ []) message two_clients refl
      message_body refl

-- A client subscribes to "+/b".
abbrev request : Bytes
request = 0 ∷ 5 ∷ 0 ∷ 3 ∷ 43 ∷ 47 ∷ 98 ∷ 0 ∷ []

request_filters : read_filters some 8 (0 ∷ 3 ∷ 43 ∷ 47 ∷ 98 ∷ 0 ∷ []) ≡ some (one_level ∷ [])
unfolding read_filters
request_filters = refl

one_level-Subscribed : Subscribed (one_level ∷ []) topic
one_level-Subscribed =
    (one_level, Memᴰ.head refl, (topic_matches_iff one_level topic).0 one_level_matches)

handle_subscribe-Sent_example :
    Memᴰ
      (2, encode_packet 48 message)
      (handle_subscribe some (λ t. t) true 2 request (retain topic (33 ∷ []) two_clients)).sent
handle_subscribe-Sent_example =
    handle_subscribe-Sent some (λ t. t) 2 request (one_level ∷ []) topic (33 ∷ []) message
      two_clients request_filters one_level-Subscribed refl message_body
      (λ t p there. elim there [ ])
