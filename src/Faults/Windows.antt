-- ===== src/Faults/Windows.antt =====
-- Once every window has closed, the wrapper is the transport itself.
use ironharness.Prelude.{ℕ, suc, ◌+◌, ◌≤◌, ◌≡◌, some, List, [], ◌∷◌, Bytes}
use ironharness.Faults.{Fault, Answer, FaultyTransport, write, read}

-- The window of a fault is past: no fault without an end ever is.
abbrev pub Past : ℕ → Fault → Type 0
Past ops f = (count : ℕ) × (f.count ≡ some count) × (f.after_ops + count ≤ ops)

abbrev pub AllPast : ℕ → List Fault → Type 0
AllPast ops [] = Unit {0}
AllPast ops (f ∷ faults) = Past ops f × AllPast ops faults

pub data Call : Type 0 where
  write_call : Bytes → Call
  read_call : ℕ → Call

module _ {G : Type 0} (random : G → ℕ × G) (sample : ℕ → ℕ → G → List ℕ × G)
    (randrange : ℕ → G → ℕ × G) where
  module _ {T : Type 0} (faults : List Fault) (write_to : Bytes → T → Answer (Unit {0}) × T)
      (read_from : ℕ → T → Answer Bytes × T) where
    pub through :
        List Call
        → FaultyTransport T G
        → List (Answer (Unit {0}) × List ℕ) × List (Answer Bytes × List ℕ) × FaultyTransport T G
    through [] w = ([], [], w)
    through (write_call text ∷ calls) w =
        let (a, w', slept) = write random sample randrange faults write_to read_from text w in
        let (written, got, w'') = through calls w' in ((a, slept) ∷ written, got, w'')
    through (read_call size ∷ calls) w =
        let (a, w', slept) = read random sample randrange faults write_to read_from size w in
        let (written, got, w'') = through calls w' in (written, (a, slept) ∷ got, w'')

    -- The transport without the wrapper, and the number of the operations.
    pub direct :
        List Call
        → FaultyTransport T G
        → List (Answer (Unit {0}) × List ℕ) × List (Answer Bytes × List ℕ) × FaultyTransport T G
    direct [] w = ([], [], w)
    direct (write_call text ∷ calls) w =
        let (a, t) = write_to text w.target in
        let (written, got, w') =
          direct calls (record { target = t; ops = suc w.ops; rng = w.rng }) in
        ((a, []) ∷ written, got, w')
    direct (read_call size ∷ calls) w =
        let (a, t) = read_from size w.target in
        let (written, got, w') =
          direct calls (record { target = t; ops = suc w.ops; rng = w.rng }) in
        (written, (a, []) ∷ got, w')
