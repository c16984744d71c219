-- ===== src/Mqtt.antt =====
-- src/io_core/mqtt_sim.py: the topic masks of the simulated broker and the framing of its packets.
--
-- A topic is a list of code points. What a client still sends is a list of bytes, and a socket that
-- has no more is one whose client has gone. The exceptions are values of `Received`.
pub mod Topics
pub mod Packets
pub mod Broker
mod Tests
use ironharness.Prelude.{
  ℕ, zero, suc, ◌+◌, ◌*◌, ◌/◌, ◌%◌, Bool, true, false, ◌&&◌, not, List, [], ◌∷◌, ◌++◌, Bytes,
  length, take, drop, leb, ◌==◌, if◌then◌else◌,
}
use ironharness.Prelude.Search.{same_bytes}

abbrev pub slash : ℕ
slash = 47

abbrev pub plus : Bytes
plus = 43 ∷ []

abbrev pub hash : Bytes
hash = 35 ∷ []

abbrev pub push : ℕ → List Bytes → List Bytes
push c [] = (c ∷ []) ∷ []
push c (level ∷ levels) = (c ∷ level) ∷ levels

-- s.split("/")
unfoldable pub split : Bytes → List Bytes
split [] = [] ∷ []
split (c ∷ cs) = let rest = split cs in if c == slash then [] ∷ rest else push c rest

abbrev pub is_nil : {A : Type 0} → List A → Bool
is_nil [] = true
is_nil (_ ∷ _) = false

-- The loop of `topic_matches` from one pair of levels on, and the comparison of the two numbers of
-- levels behind it.
unfoldable pub levels_match : List Bytes → List Bytes → Bool
levels_match [] ts = is_nil ts
levels_match (p ∷ ps) [] = if same_bytes p hash then is_nil ps else false
levels_match (p ∷ ps) (t ∷ ts) =
    let rest = levels_match ps ts in
    if same_bytes p hash
    then is_nil ps
    else if not (same_bytes p plus) && not (same_bytes p t)
    then false
    else rest

unfoldable pub topic_matches : Bytes → Bytes → Bool
topic_matches pattern topic = levels_match (split pattern) (split topic)

pub data Received (A : Type 0) : Type 0 where
  received : A → Bytes → Received A
  -- ConnectionError
  disconnected : Received A
  -- ValueError
  invalid : Received A

-- `_read_exact`
unfoldable pub read_exact : ℕ → Bytes → Received Bytes
read_exact n stream =
    if leb n (length stream) then received (take n stream) (drop n stream) else disconnected

-- The loop of `_read_varint` with `left` rounds to go.
unfoldable pub varint_rounds : ℕ → ℕ → ℕ → Bytes → Received ℕ
varint_rounds zero multiplier value stream = invalid
varint_rounds (suc left) multiplier value [] = disconnected
varint_rounds (suc left) multiplier value (byte ∷ stream) =
    let value' = value + (byte % 128) * multiplier in
    let later = varint_rounds left (multiplier * 128) value' stream in
    if (byte / 128) % 2 == 0 then received value' stream else later

unfoldable pub read_varint : Bytes → Received ℕ
read_varint stream = varint_rounds 4 1 0 stream

-- The loop of `_encode_packet`, which stops where nothing is left of the length. A length is less
-- than its successor and becomes smaller in each round, so that is fuel enough.
unfoldable pub varint : ℕ → ℕ → Bytes
varint zero n = []
varint (suc fuel) n =
    let later = varint fuel (n / 128) in
    if n / 128 == 0 then (n % 128) ∷ [] else (n % 128 + 128) ∷ later

unfoldable pub encode_packet : ℕ → Bytes → Bytes
encode_packet type_flags body = type_flags ∷ varint (suc (length body)) (length body) ++ body

unfoldable pub with_type : ℕ → Received Bytes → Received (ℕ × Bytes)
with_type type_flags (received body rest) = received (type_flags, body) rest
with_type type_flags disconnected = disconnected
with_type type_flags invalid = invalid

unfoldable pub read_body : ℕ → Received ℕ → Received (ℕ × Bytes)
read_body type_flags (received size stream) =
    with_type type_flags (if size == 0 then received [] stream else read_exact size stream)
read_body type_flags disconnected = disconnected
read_body type_flags invalid = invalid

-- What `serve` takes from the socket for one packet: the type with the flags, and the body.
unfoldable pub read_packet : Bytes → Received (ℕ × Bytes)
read_packet [] = disconnected
read_packet (type_flags ∷ stream) = read_body type_flags (read_varint stream)
