-- ===== src/Faults.antt =====
-- src/io_core/faults.py: scripted faults of a transport.
--
-- The wrapped transport and the random generator are parameters. Probabilities, ratios and seconds
-- are whole numbers of some unit, ratios in hundredths; a random number is below a probability or
-- not.
pub mod Windows
pub mod Corruption
mod Tests
use ironharness.Prelude.{
  ℕ, zero, suc, ◌+◌, ◌-◌, ◌*◌, ◌/◌, ◌%◌, ◌^◌, min, Bool, true, false, ◌&&◌, ◌||◌, Option, none,
  some, List, [], ◌∷◌, ◌++◌, Bytes, length, ltb, leb, ◌==◌, if◌then◌else◌,
}

pub data Action : Type 0 where
  drop corrupt delay disconnect : Action

pub record Fault : Type 0 where
  pub action : Action
  pub after_ops : ℕ
  pub count : Option ℕ
  pub probability : ℕ
  pub ratio : ℕ
  pub seconds : ℕ

-- What a call gives, or what it raises: its own ConnectionLost, or what the transport raises.
pub data Answer (A : Type 0) : Type 0 where
  returned : A → Answer A
  connection_lost : Answer A
  transport_error : Answer A

abbrev pub before_end : Option ℕ → ℕ → ℕ → Bool
before_end none after_ops ops = true
before_end (some count) after_ops ops = leb ops (after_ops + count)

unfoldable pub in_window : Fault → ℕ → Bool
in_window f ops = ltb f.after_ops ops && before_end f.count f.after_ops ops

abbrev pub is : Action → Action → Bool
is drop drop = true
is corrupt corrupt = true
is delay delay = true
is disconnect disconnect = true
is _ _ = false

unfoldable pub any_is : Action → List Fault → Bool
any_is action [] = false
any_is action (f ∷ faults) = is action f.action || any_is action faults

-- The seconds slept, in order.
unfoldable pub delays : List Fault → List ℕ
delays [] = []
delays (f ∷ faults) =
    let more = delays faults in if is delay f.action then f.seconds ∷ more else more

-- out[pos] ^= 1 << bit
unfoldable pub flip : ℕ → ℕ → ℕ
flip bit b = if (b / 2 ^ bit) % 2 == 1 then b - 2 ^ bit else b + 2 ^ bit

unfoldable pub flip_at : ℕ → ℕ → Bytes → Bytes
flip_at pos bit [] = []
flip_at zero bit (b ∷ bs) = flip bit b ∷ bs
flip_at (suc pos) bit (b ∷ bs) = b ∷ flip_at pos bit bs

-- How many bytes of a text are hit.
unfoldable pub hits : ℕ → ℕ → ℕ
hits size ratio = let wanted = size * ratio / 100 in min (if wanted == 0 then 1 else wanted) size

-- The wrapped transport, the operations so far and the generator.
pub record FaultyTransport (T G : Type 0) : Type 0 where
  pub target : T
  pub ops : ℕ
  pub rng : G

module _ {G : Type 0} (random : G → ℕ × G) (sample : ℕ → ℕ → G → List ℕ × G)
    (randrange : ℕ → G → ℕ × G) where
  -- One flip for each position, with a random bit each.
  unfoldable pub flips : List ℕ → Bytes → G → Bytes × G
  flips [] text g = (text, g)
  flips (pos ∷ positions) text g =
      let (bit, g') = randrange 8 g in flips positions (flip_at pos bit text) g'

  -- `_corrupt`
  unfoldable pub corrupted : Bytes → ℕ → G → Bytes × G
  corrupted [] ratio g = ([], g)
  corrupted (b ∷ bs) zero g = (b ∷ bs, g)
  corrupted (b ∷ bs) (suc ratio) g =
      let (positions, g') = sample (length (b ∷ bs)) (hits (length (b ∷ bs)) (suc ratio)) g in
      flips positions (b ∷ bs) g'

  -- The faults that hit operation `ops`; each in its window takes a random number.
  abbrev pub draw : Fault → ℕ × G → (G → List Fault × G) → List Fault × G
  draw f (x, g) next =
      let (more, g') = next g in (if ltb x f.probability then f ∷ more else more, g')

  unfoldable pub active : ℕ → List Fault → G → List Fault × G
  active ops [] g = ([], g)
  active ops (f ∷ faults) g =
      if in_window f ops then draw f (random g) (active ops faults) else active ops faults g

  unfoldable pub corrupt_all : List Fault → Bytes → G → Bytes × G
  corrupt_all [] text g = (text, g)
  corrupt_all (f ∷ faults) text g =
      let rest = corrupt_all faults text g in
      let (text', g') = corrupted text f.ratio g in
      let rest' = corrupt_all faults text' g' in if is corrupt f.action then rest' else rest

  module _ {T : Type 0} (faults : List Fault) (write_to : Bytes → T → Answer (Unit {0}) × T)
      (read_from : ℕ → T → Answer Bytes × T) where
    unfoldable pub write_through : ℕ → Bytes × G → T → Answer (Unit {0}) × FaultyTransport T G
    write_through ops (text, g) t =
        let (a, t') = write_to text t in (a, record { target = t'; ops = ops; rng = g })

    -- The answer, and the sleeps before it.
    unfoldable pub write :
        Bytes → FaultyTransport T G → Answer (Unit {0}) × FaultyTransport T G × List ℕ
    write text w =
        let ops = suc w.ops in
        let (hit, g) = active ops faults w.rng in
        let kept : FaultyTransport T G = record { target = w.target; ops = ops; rng = g } in
        let (a, w') = write_through ops (corrupt_all hit text g) w.target in
        if any_is disconnect hit
        then (connection_lost, kept, [])
        else if any_is drop hit
        then (returned tt, kept, delays hit)
        else (a, w', delays hit)

    unfoldable pub read : ℕ → FaultyTransport T G → Answer Bytes × FaultyTransport T G × List ℕ
    read size w =
        let ops = suc w.ops in
        let (hit, g) = active ops faults w.rng in
        let kept : FaultyTransport T G = record { target = w.target; ops = ops; rng = g } in
        let (a, t') = read_from size w.target in
        if any_is disconnect hit
        then (connection_lost, kept, [])
        else if any_is drop hit
        then (returned [], kept, delays hit)
        else (a, record { target = t'; ops = ops; rng = g }, delays hit)
