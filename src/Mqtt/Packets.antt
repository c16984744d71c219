-- ===== src/Mqtt/Packets.antt =====
-- What the broker frames, a reader of the same framing takes apart again.
use ironharness.Prelude.{
  ℕ, zero, suc, ◌+◌, ◌*◌, ◌/◌, ◌%◌, ◌^◌, ◌≤◌, ◌<◌, ◌≡◌, refl, ap, ap₂, ◌∙◌, true, false, [], ◌∷◌,
  ◌++◌, append_assoc, Bytes, length, length-append, take-append_self, drop-append_self, leb, ◌==◌,
  if_true, if_false, if_ind, arith, subst,
}
use ironharness.Mqtt.{
  received, invalid, read_exact, varint_rounds, read_varint, varint, encode_packet, read_body,
  with_type, read_packet,
}

eq_true : (a b : ℕ) → a ≡ b → (a == b) ≡ true
eq_true a b e = ground arith

le→leb : {a b : ℕ} → a ≤ b → leb a b ≡ true
le→leb l = ground arith

eq_false : (a b : ℕ) → a < b → (b == a) ≡ false
eq_false a b l = ground arith

test_number : (a b : ℕ) → (a == b) ≡ true → a ≡ b
test_number a b e = ground arith

fails_test : (b : ℕ) → (b == 0) ≡ false → 1 ≤ b
fails_test b e = ground arith

small : (n : ℕ) → n / 128 ≡ 0 → n % 128 ≡ n
small n e = omega arith

last_digit : (n : ℕ) → n / 128 ≡ 0 → (n % 128) / 128 % 2 ≡ 0
last_digit n e = omega arith

twice : (n : ℕ) → n % 128 % 128 ≡ n % 128
twice n = omega arith

marked_digit : (d : ℕ) → d < 128 → (d + 128) / 128 % 2 ≡ 1
marked_digit d l = omega arith

marked_value : (d : ℕ) → d < 128 → (d + 128) % 128 ≡ d
marked_value d l = omega arith

digit_lt : (n : ℕ) → n % 128 < 128
digit_lt n = omega arith

rest_long : (n p : ℕ) → p * 128 ≤ n → p ≤ n / 128
rest_long n p l = omega arith

pow_suc : (k : ℕ) → 128 ^ suc k ≡ 128 ^ k * 128
pow_suc k = omega arith

pow_pos : (k : ℕ) → 1 ≤ 128 ^ k
pow_pos zero = omega arith
pow_pos (suc k) = omega (arith, pow_pos k, pow_suc k)

too_small : (n k : ℕ) → n / 128 ≡ 0 → 128 ^ suc k ≤ n → ⊥
too_small n k e l = omega (arith, pow_pos k, pow_suc k)

-- The last byte of a length ends the loop of the reader, any other one does not.
last_round :
    (left multiplier value n : ℕ) (stream : Bytes)
    → n / 128 ≡ 0
    → varint_rounds (suc left) multiplier value ((n % 128) ∷ stream)
      ≡ received (value + n * multiplier) stream
unfolding varint_rounds
last_round left m v n stream e =
    if_true _ _ (eq_true _ 0 (last_digit n e))
    ∙ ap (λ d. received (v + d * m) stream) (twice n ∙ small n e)

more_round :
    (left multiplier value d : ℕ) (stream : Bytes)
    → d < 128
    → varint_rounds (suc left) multiplier value ((d + 128) ∷ stream)
      ≡ varint_rounds left (multiplier * 128) (value + d * multiplier) stream
unfolding varint_rounds
more_round left m v d stream l =
    if_false _ _ (ap (λ x. x == 0) (marked_digit d l))
    ∙ ap (λ x. varint_rounds left (m * 128) (v + x * m) stream) (marked_value d l)

prefix_fits : (body rest : Bytes) → leb (length body) (length (body ++ rest)) ≡ true
prefix_fits body rest = le→leb (omega (arith, length-append body rest))

-- What one more byte adds to the value.
expand : (q d m v : ℕ) → v + d * m + q * (m * 128) ≡ v + (d + q * 128) * m
expand q d m v = omega arith

whole : (n : ℕ) → n % 128 + (n / 128) * 128 ≡ n
whole n = omega arith

digits : (n m v : ℕ) → v + (n % 128) * m + (n / 128) * (m * 128) ≡ v + n * m
digits n m v = expand (n / 128) (n % 128) m v ∙ ap (λ x. v + x * m) (whole n)

rest_fits : (n p : ℕ) → n < p * 128 → n / 128 < p
rest_fits n p l = omega arith

none_left : (n : ℕ) → 1 ≤ n / 128 → n < 128 → ⊥
none_left n a b = omega arith

smaller : (n fuel : ℕ) → n < suc fuel → 1 ≤ n / 128 → n / 128 < fuel
smaller n fuel l a = omega arith

varint_lem :
    (fuel left multiplier value n : ℕ) (stream : Bytes)
    → n < fuel
    → n < 128 ^ suc left
    → varint_rounds (suc left) multiplier value (varint fuel n ++ stream)
      ≡ received (value + n * multiplier) stream
unfolding varint
varint_lem zero left m v n stream l k = absurd (omega arith)
varint_lem (suc fuel) zero m v n stream l k =
    if_ind (λ bytes. varint_rounds 1 m v (bytes ++ stream) ≡ received (v + n * m) stream)
      (n / 128 == 0) (λ t. last_round 0 m v n stream (test_number _ 0 t))
      (λ f. absurd (none_left n (fails_test _ f) k))
varint_lem (suc fuel) (suc left) m v n stream l k =
    if_ind
      (λ bytes. varint_rounds (suc (suc left)) m v (bytes ++ stream) ≡ received (v + n * m) stream)
      (n / 128 == 0) (λ t. last_round (suc left) m v n stream (test_number _ 0 t))
      (λ f.
        let fits = rest_fits n (128 ^ suc left) (subst (λ p. n < p) (pow_suc (suc left)) k) in
        more_round (suc left) m v (n % 128) (varint fuel (n / 128) ++ stream) (digit_lt n)
        ∙ varint_lem fuel left (m * 128) (v + (n % 128) * m) (n / 128) stream
            (smaller n fuel l (fails_test _ f)) fits
        ∙ ap (λ x. received x stream) (digits n m v))

-- A length that needs more bytes than the reader takes.
varint_long :
    (fuel left multiplier value n : ℕ) (stream : Bytes)
    → n < fuel
    → 128 ^ left ≤ n
    → varint_rounds left multiplier value (varint fuel n ++ stream) ≡ invalid
unfolding varint varint_rounds
varint_long fuel zero m v n stream l k = refl
varint_long zero (suc left) m v n stream l k = absurd (omega arith)
varint_long (suc fuel) (suc left) m v n stream l k =
    if_ind (λ bytes. varint_rounds (suc left) m v (bytes ++ stream) ≡ invalid) (n / 128 == 0)
      (λ t. absurd (too_small n left (test_number _ 0 t) k))
      (λ f.
        more_round left m v (n % 128) (varint fuel (n / 128) ++ stream) (digit_lt n)
        ∙ varint_long fuel left (m * 128) (v + (n % 128) * m) (n / 128) stream
            (smaller n fuel l (fails_test _ f))
            (rest_long n (128 ^ left) (subst (λ p. p ≤ n) (pow_suc left) k)))

read_exact-append :
    (body rest : Bytes) → read_exact (length body) (body ++ rest) ≡ received body rest
unfolding read_exact
read_exact-append body rest =
    if_true _ _ (prefix_fits body rest)
    ∙ ap₂ received (take-append_self body rest) (drop-append_self body rest)

read_body-whole :
    (type_flags : ℕ) (body rest : Bytes)
    → read_body type_flags (received (length body) (body ++ rest))
      ≡ received (type_flags, body) rest
unfolding read_body with_type
read_body-whole f [] rest = refl
read_body-whole f (b ∷ bs) rest =
    ap (with_type f)
      (if_false _ _ (eq_false 0 (suc (length bs)) (omega arith)) ∙ read_exact-append (b ∷ bs) rest)

whole_length :
    (body rest : Bytes)
    → length body < 268435456
    → read_varint ((varint (suc (length body)) (length body) ++ body) ++ rest)
      ≡ received (length body) (body ++ rest)
unfolding read_varint
whole_length body rest l =
    let n = length body in
    ap (varint_rounds 4 1 0) (append_assoc (varint (suc n) n) body rest)
    ∙ varint_lem (suc n) 3 1 0 n (body ++ rest) (omega arith) l
    ∙ ap (λ x. received x (body ++ rest)) (omega arith)

long_length :
    (body rest : Bytes)
    → 268435456 ≤ length body
    → read_varint ((varint (suc (length body)) (length body) ++ body) ++ rest) ≡ invalid
unfolding read_varint
long_length body rest l =
    let n = length body in
    ap (varint_rounds 4 1 0) (append_assoc (varint (suc n) n) body rest)
    ∙ varint_long (suc n) 4 1 0 n (body ++ rest) (omega arith) l

-- A reader of packets gets back the type, the flags and the body of every packet that the broker
-- frames, and leaves what comes behind it on the line, if the body is shorter than 2 ^ 28.
pub read_packet-encode_packet :
    (type_flags : ℕ) (body rest : Bytes)
    → length body < 268435456
    → read_packet (encode_packet type_flags body ++ rest) ≡ received (type_flags, body) rest
unfolding read_packet encode_packet
read_packet-encode_packet f body rest l =
    ap (read_body f) (whole_length body rest l) ∙ read_body-whole f body rest

-- The header of a body of 2 ^ 28 bytes or more is refused: the broker frames it all the same.
pub read_packet-encode_packet_long :
    (type_flags : ℕ) (body rest : Bytes)
    → 268435456 ≤ length body
    → read_packet (encode_packet type_flags body ++ rest) ≡ invalid
unfolding read_packet encode_packet read_body
read_packet-encode_packet_long f body rest l = ap (read_body f) (long_length body rest l)
