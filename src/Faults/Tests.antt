-- ===== src/Faults/Tests.antt =====
-- A script of faults over a transport that keeps what is written and reads it back.
use ironharness.Prelude.{ℕ, suc, ◌≡◌, refl, some, List, [], ◌∷◌, ◌++◌, Bytes, take}
use ironharness.Faults.{
  Fault, Answer, returned, connection_lost, FaultyTransport, corrupt, disconnect, write, read,
  write_through, active, in_window, any_is, delays, corrupt_all, corrupted, flips, flip_at, flip,
  hits,
}
use ironharness.Faults.Windows.{Call, write_call, read_call}

abbrev random : ℕ → ℕ × ℕ
random g = (0, suc g)

abbrev sample : ℕ → ℕ → ℕ → List ℕ × ℕ
sample size count g = (0 ∷ [], suc g)

abbrev randrange : ℕ → ℕ → ℕ × ℕ
randrange limit g = (0, suc g)

abbrev write_to : Bytes → Bytes → Answer (Unit {0}) × Bytes
write_to text t = (returned tt, t ++ text)

abbrev read_from : ℕ → Bytes → Answer Bytes × Bytes
read_from size t = (returned (take size t), t)

abbrev script : List Fault
script =
    record {
      action = corrupt;
      after_ops = 0;
      count = some 1;
      probability = 1;
      ratio = 25;
      seconds = 0;
    }
    ∷ record {
      action = disconnect;
      after_ops = 1;
      count = some 1;
      probability = 1;
      ratio = 0;
      seconds = 0;
    }
    ∷ []

abbrev fresh : FaultyTransport Bytes ℕ
fresh = record { target = []; ops = 0; rng = 0 }

-- The lowest bit of the first byte is turned.
turned :
    write random sample randrange script write_to read_from (4 ∷ 5 ∷ []) fresh
    ≡ (returned tt, record { target = 5 ∷ 5 ∷ []; ops = 1; rng = 3 }, [])
unfolding write write_through active in_window any_is delays corrupt_all corrupted flips flip_at
    flip hits
turned = refl

lost :
    read random sample randrange script write_to read_from 8
      (record { target = []; ops = 1; rng = 3 })
    ≡ (connection_lost, record { target = []; ops = 2; rng = 4 }, [])
unfolding read active in_window any_is
lost = refl

abbrev calls : List Call
calls = write_call (1 ∷ []) ∷ read_call 8 ∷ []
