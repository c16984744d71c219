-- ===== src/MqttTransport/Tests.antt =====
-- Runs of the MQTT transport.
use ironharness.Prelude.{ℕ, ◌≡◌, refl, true, false, none, some, [], ◌∷◌}
use ironharness.Policy.{passed}
use ironharness.MqttTransport.{
  returned, os_error, Message, MqttTransport, append, on_connect, on_disconnect, on_subscribe,
  on_message, teardown, open_failed, connect, open_transport, codes_of, without, any_failure,
  await_suback, subscribe, read_message,
}

abbrev fresh : MqttTransport
fresh = record {
  is_open = false;
  connected = false;
  closing = false;
  inbox = [];
  suback_results = [];
  events = [];
}

abbrev ready : MqttTransport
ready = record fresh { is_open = true; connected = true }

opened :
    open_transport passed true (some true) (on_connect false) on_disconnect fresh
    ≡ (returned tt, record ready { events = "mqtt_open" ∷ [] })
unfolding open_transport connect on_connect
opened = refl

-- A broker that refuses the connection: no event of its own for the disconnect.
turned_away :
    open_transport passed true (some true) (on_connect true) on_disconnect fresh
    ≡ (os_error, record fresh { events = "mqtt_open_failed" ∷ [] })
unfolding open_transport connect on_connect on_disconnect open_failed teardown
turned_away = refl

-- The SUBACK comes in the second wait, with a failure.
refused : (subscribe (some (0, 7)) ((λ t. t) ∷ on_subscribe 7 (true ∷ []) ∷ []) ready).0 ≡ os_error
unfolding subscribe await_suback codes_of without any_failure on_subscribe
refused = refl

abbrev message : ℕ → Message
message n = record { topic = 116 ∷ []; payload = n ∷ [] }

oldest_lost :
    (on_message 2 (message 3) (on_message 2 (message 2) (on_message 2 (message 1) ready))).inbox
    ≡ message 2 ∷ message 3 ∷ []
unfolding on_message append
oldest_lost = refl

got : (read_message (on_message 2 (message 1) ∷ []) ready).0 ≡ some (message 1)
unfolding read_message on_message append
got = refl

late : read_message [] ready ≡ (none, record ready { events = "mqtt_read_timeout" ∷ [] })
unfolding read_message
late = refl
