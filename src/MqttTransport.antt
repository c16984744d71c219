-- ===== src/MqttTransport.antt =====
-- src/io_core/mqtt_transport.py: the transport over an MQTT client.
--
-- The client is a parameter: what its constructor and its requests give, and its callbacks, which
-- the network thread runs while a call waits: a change of the state for each wait. An event is its
-- kind. A code of a SUBACK is whether it is a failure.
pub mod Inbox
mod Tests
use ironharness.Prelude.{
  ℕ, ◌+◌, ◌-◌, Bool, true, false, ◌||◌, Option, none, some, List, [], ◌∷◌, ◌++◌, Bytes, length,
  drop, String, ◌==◌, if◌then◌else◌,
}
use ironharness.Policy.{Checked}

pub data Answer (A : Type 0) : Type 0 where
  returned : A → Answer A
  policy_violation closed_error os_error value_error : Answer A

pub record Message : Type 0 where
  pub topic : Bytes
  pub payload : Bytes

pub record MqttTransport : Type 0 where
  pub is_open : Bool
  pub connected : Bool
  pub closing : Bool
  pub inbox : List Message
  pub suback_results : List (ℕ × List Bool)
  pub events : List String

abbrev pub Change : Type 0
Change = MqttTransport → MqttTransport

abbrev pub emit : String → Change
emit kind t = record t { events = t.events ++ kind ∷ [] }

-- deque(maxlen).append
unfoldable pub append : ℕ → Message → List Message → List Message
append queue_size m inbox = let longer = inbox ++ m ∷ [] in drop (length longer - queue_size) longer

unfoldable pub on_connect : Bool → Change
on_connect is_failure t = if is_failure then t else record t { connected = true }

unfoldable pub on_disconnect : Change
on_disconnect t =
    let down = record t { connected = false } in
    if t.closing then down else emit "mqtt_disconnect" down

unfoldable pub on_subscribe : ℕ → List Bool → Change
on_subscribe mid codes t = record t { suback_results = (mid, codes) ∷ t.suback_results }

unfoldable pub on_message : ℕ → Message → Change
on_message queue_size m t = emit "mqtt_message" (record t { inbox = append queue_size m t.inbox })

-- `down` is what the callbacks do while the client disconnects.
unfoldable pub teardown : Change → Change
teardown down t =
    if t.is_open
    then record (down (record t { closing = true })) { is_open = false; closing = false }
    else t

unfoldable pub close : Change → Change
close down t = if t.is_open then emit "mqtt_close" (teardown down t) else t

unfoldable pub open_failed :
    Change → Answer (Unit {0}) → MqttTransport → Answer (Unit {0}) × MqttTransport
open_failed down e t = (e, emit "mqtt_open_failed" (teardown down t))

-- What the connect of a new client comes to: none where it raises a ValueError, or whether it has
-- returned; `during` is what the callbacks do until the wait for the connection is over.
unfoldable pub connect :
    Change → Option Bool → Change → MqttTransport → Answer (Unit {0}) × MqttTransport
connect down none during t = open_failed down value_error t
connect down (some false) during t = open_failed down os_error t
connect down (some true) during t =
    let t' = during t in
    if t'.connected then (returned tt, emit "mqtt_open" t') else open_failed down os_error t'

abbrev denials : {V : Type 0} → List V → List String
denials [] = []
denials (v ∷ vs) = "policy_violation" ∷ denials vs

-- `built` is whether the factory has made a client.
unfoldable pub open_transport :
    Checked
    → Bool
    → Option Bool
    → Change
    → Change
    → MqttTransport
    → Answer (Unit {0}) × MqttTransport
open_transport policy built connecting during down t =
    if policy.denied
    then (policy_violation, record t { events = t.events ++ denials policy.events })
    else if built
    then connect down connecting during (record t { is_open = true })
    else open_failed down os_error t

abbrev pub journaled :
    {A : Type 0} → String → String → Answer A × MqttTransport → Answer A × MqttTransport
journaled ok failed (returned a, t) = (returned a, emit ok t)
journaled ok failed (policy_violation, t) = (policy_violation, emit failed t)
journaled ok failed (closed_error, t) = (closed_error, emit failed t)
journaled ok failed (os_error, t) = (os_error, emit failed t)
journaled ok failed (value_error, t) = (value_error, emit failed t)

-- A publish: whether the client refuses the arguments, its return code, and whether the message is
-- acknowledged in time.
pub data Published : Type 0 where
  invalid : Published
  sent : ℕ → Bool → Published

unfoldable pub published : Published → Answer (Unit {0})
published invalid = value_error
published (sent rc is_published) =
    if rc == 0 then (if is_published then returned tt else os_error) else os_error

unfoldable pub publish : Published → Change → MqttTransport → Answer (Unit {0}) × MqttTransport
publish answer during t =
    journaled "mqtt_publish" "mqtt_publish_failed"
      (if t.is_open then (published answer, during t) else (closed_error, t))

unfoldable pub codes_of : ℕ → List (ℕ × List Bool) → Option (List Bool)
codes_of mid [] = none
codes_of mid ((m, codes) ∷ results) = if m == mid then some codes else codes_of mid results

unfoldable pub without : ℕ → List (ℕ × List Bool) → List (ℕ × List Bool)
without mid [] = []
without mid ((m, codes) ∷ results) =
    let rest = without mid results in if m == mid then rest else (m, codes) ∷ rest

unfoldable pub any_failure : List Bool → Bool
any_failure [] = false
any_failure (failure ∷ codes) = failure || any_failure codes

abbrev pub with_suback :
    ℕ
    → Option (List Bool)
    → Answer (Unit {0}) × MqttTransport
    → MqttTransport
    → Answer (Unit {0}) × MqttTransport
with_suback mid none later t = later
with_suback mid (some codes) later t = (
  if any_failure codes then os_error else returned tt,
  record t { suback_results = without mid t.suback_results },
)

-- The wait for the SUBACK, one change for each wait until the deadline.
unfoldable pub await_suback : ℕ → List Change → MqttTransport → Answer (Unit {0}) × MqttTransport
await_suback mid [] t = with_suback mid (codes_of mid t.suback_results) (os_error, t) t
await_suback mid (change ∷ waits) t =
    with_suback mid (codes_of mid t.suback_results) (await_suback mid waits (change t)) t

-- `request` is the return code and the message id, none where the client refuses the arguments.
unfoldable pub subscribe :
    Option (ℕ × ℕ) → List Change → MqttTransport → Answer (Unit {0}) × MqttTransport
subscribe none waits t =
    journaled "mqtt_subscribe" "mqtt_subscribe_failed"
      (if t.is_open then (value_error, t) else (closed_error, t))
subscribe (some (rc, mid)) waits t = journaled "mqtt_subscribe" "mqtt_subscribe_failed" (
    if t.is_open
    then (if rc == 0 then await_suback mid waits t else (os_error, t))
    else (closed_error, t))

abbrev pub pop :
    List Message → Option Message × MqttTransport → MqttTransport → Option Message × MqttTransport
pop [] later t = later
pop (m ∷ inbox) later t = (some m, record t { inbox = inbox })

-- One change for each wait until the deadline.
unfoldable pub read_message : List Change → MqttTransport → Option Message × MqttTransport
read_message [] t = pop t.inbox (none, emit "mqtt_read_timeout" t) t
read_message (change ∷ waits) t = pop t.inbox (read_message waits (change t)) t
