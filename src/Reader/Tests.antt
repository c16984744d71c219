-- ===== src/Reader/Tests.antt =====
-- Runs of the reader, and its theorems at concrete inputs.
use ironharness.Prelude.{
  ◌≡◌, refl, inl, inr, true, false, none, some, [], ◌∷◌, arith, Bytes, length, ◌++◌,
}
use ironharness.Prelude.Search.{find, starts_with}
use ironharness.Prelude.Hex.{hex}
use ironharness.Reader.{
  SerialReader, Port, got, failed, Between, Reply, replied, closed_error, init, run_rounds,
  snapshot, consume_locked, tail, read_until,
}
use ironharness.Reader.Buffer.{Inv, Loses}
use ironharness.Reader.Rounds.{run_rounds-Loses, read_in_rounds}
use ironharness.Reader.ReadUntil.{Ends, read_until-Ends}
use ironharness.Reader.Views.{tail_dropped-consume_all}

-- Six bytes at most; one byte of the first chunk is consumed, two bytes were evicted before.
abbrev sample : SerialReader
sample = record {
  max_bytes = 6;
  chunk = 3;
  chunks = (1, 10 ∷ 11 ∷ []) ∷ (2, 12 ∷ 13 ∷ 14 ∷ []) ∷ [];
  bytes = 5;
  dropped = 2;
  consumed = 1;
  stop = false;
  error = none;
  thread = some true;
}

sample-Inv : Inv sample
sample-Inv = record {
  sound = record { sized = omega arith; filled = omega arith; within = omega arith };
  bounded = omega arith;
}

-- Three bytes arrive, then nothing, then the port dies.
abbrev burst : Port
burst = record {
  in_waiting = some 5;
  stop_at_lock = false;
  read = λ n. got (20 ∷ 21 ∷ 22 ∷ []);
  now = 3;
}

abbrev quiet : Port
quiet = record { in_waiting = some 0; stop_at_lock = false; read = λ n. got []; now = 4 }

abbrev dead : Port
dead = record { in_waiting = none; stop_at_lock = false; read = λ n. failed closed_error; now = 5 }

abbrev ports : Between
ports = burst ∷ quiet ∷ dead ∷ []

identity : Bytes → Bytes
identity b = b

evicts_the_oldest :
    (snapshot (run_rounds ports sample) ≡ 12 ∷ 13 ∷ 14 ∷ 20 ∷ 21 ∷ 22 ∷ [])
    × ((run_rounds ports sample).dropped ≡ 3)
unfolding snapshot run_rounds
evicts_the_oldest = (refl, refl)

refuses_a_small_bound : init 2 3 ≡ none
unfolding init
refuses_a_small_bound = refl

found_after_a_burst :
    (r : SerialReader) × (answer : Reply) × (read_until identity
        (13 ∷ 14 ∷ 20 ∷ [])
        10
        0
        ((quiet ∷ [], 1) ∷ (burst ∷ [], 2) ∷ [])
        sample
      ≡ replied answer r)
    × (answer.found ≡ true)
    × (snapshot r ≡ 21 ∷ 22 ∷ [])
unfolding read_until snapshot identity find starts_with hex
found_after_a_burst = (_, _, refl, refl, refl)

run_rounds-Loses_example :
    Loses (snapshot sample ++ read_in_rounds ports sample) sample (run_rounds ports sample)
run_rounds-Loses_example = run_rounds-Loses ports sample sample-Inv

read_until-Ends_example :
    Ends
      (99 ∷ [])
      10
      (read_until identity (99 ∷ []) 10 0 ((burst ∷ [], 3) ∷ (quiet ∷ [], 12) ∷ []) sample)
read_until-Ends_example =
    read_until-Ends identity 99 [] 10 0 ((burst ∷ [], 3) ∷ (quiet ∷ [], 12) ∷ []) sample sample-Inv
      (inr (inl (omega arith)))

tail_dropped-consume_all_example :
    (tail identity 4096 (consume_locked (length (snapshot sample)) sample)).dropped ≡ 2
tail_dropped-consume_all_example = tail_dropped-consume_all identity 4096 sample sample-Inv
