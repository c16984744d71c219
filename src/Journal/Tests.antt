-- ===== src/Journal/Tests.antt =====
-- The journal at concrete inputs: a JSON library for entries of a clock and a number, files of five
-- bytes, and one rotated part.
use ironharness.Prelude.{
  ℕ, ◌+◌, ◌-◌, ◌≡◌, ◌≢◌, refl, sym, ap₂, ◌⊎◌, true, false, Option, none, some, List, [], ◌∷◌, ◌++◌,
  Bytes, length, arith, subst,
}
use ironharness.Prelude.Dict.{Dict, lookup, insert}
use ironharness.Journal.{
  Json, Event, print, entry, service, update, payload, conflicts, entries, fresh_journal,
  read_events_chain, parts_from,
}
use ironharness.Journal.Memory.{no_files, made, attempts}
use ironharness.Journal.Reading.{IsLawful, All, flat}
use ironharness.Journal.Numbers.{Logged, mine_of, run-Growing}
use ironharness.Journal.Calls.{
  Act, mine, others, batch, batches, after, run, own, Growing, Payloads, read_events_chain-run,
}

abbrev number_of : Option ℕ → ℕ
number_of none = 0
number_of (some n) = n

abbrev stamp : ℕ → ℕ → Dict ℕ
stamp ts seq = ("ts", ts) ∷ ("seq", seq) ∷ ("actor", 0) ∷ ("kind", 0) ∷ []

abbrev read_pair : Bytes → Option (Dict ℕ)
read_pair (a ∷ b ∷ []) = some (stamp (a - 11) (b - 11))
read_pair _ = none

abbrev tiny : Json
tiny = record {
  Value = ℕ;
  number = λ n. n;
  text = λ _. 0;
  texts = λ _. 0;
  dumps = λ e. (11 + number_of (lookup "ts" e)) ∷ (11 + number_of (lookup "seq" e)) ∷ [];
  loads = read_pair;
  blank = λ _. false;
}

abbrev Stamped : Event tiny → Type 0
Stamped e = (ts : ℕ) × (seq : ℕ) × (e ≡ stamp ts seq)

back : (n : ℕ) → 11 + n - 11 ≡ n
back n = omega arith

not_newline : (n : ℕ) → 11 + n ≢ 10
not_newline n e = omega arith

-- The two numbers of an entry come back.
pair_back : (ts seq : ℕ) → tiny.loads (tiny.dumps (stamp ts seq)) ≡ some (stamp ts seq)
unfolding lookup
pair_back ts seq = ap₂ (λ a b. some (stamp a b)) (back ts) (back seq)

tiny-IsLawful : IsLawful tiny Stamped
tiny-IsLawful = record {
  loads-dumps = λ e (ts, seq, same).
      subst (λ x. tiny.loads (tiny.dumps x) ≡ some x) (sym same) (pair_back ts seq);
  one_line = λ e p. (not_newline _, (not_newline _, tt));
  not_blank = λ e p. refl;
}

-- Three calls of one writer, the second of which fails to open the file, and one of another.
abbrev acts : List (Act tiny)
acts =
    mine 1 2 true "open" []
    ∷ others (some (stamp 3 1 ∷ []))
    ∷ mine 4 5 false "read" []
    ∷ mine 6 7 true "write" (("seq", 9) ∷ [])
    ∷ []

own_numbers :
    own tiny
      (mine 1 2 true "open" [] ∷ mine 4 5 false "read" [] ∷ mine 6 7 true "write" [] ∷ [])
      (fresh_journal "a" 5 1)
    ≡ stamp 1 1 ∷ stamp 6 3 ∷ []
unfolding own after entries entry service payload update insert conflicts
own_numbers = refl

acts-Payloads : Payloads tiny acts
unfolding lookup
acts-Payloads = (tt, (tt, ((refl, tt), tt)))

run-Growing_example :
    (bs : List (Option (List (Event tiny)))) × Logged tiny acts bs
    × ((run tiny acts (fresh_journal "agent" 5 1) no_files).1
        ≡ attempts (print tiny) 5 1 bs no_files)
    × Growing tiny 0 (mine_of tiny acts bs)
run-Growing_example = run-Growing tiny acts (fresh_journal "agent" 5 1) no_files refl acts-Payloads

abbrev calls : List (Act tiny)
calls =
    mine 1 2 true "open" []
    ∷ others (some (stamp 3 1 ∷ []))
    ∷ mine 4 5 false "read" []
    ∷ mine 6 7 true "write" []
    ∷ []

calls-Stamped :
    All Stamped (flat (made (print tiny) (batches tiny calls (fresh_journal "agent" 5 1))))
unfolding batches batch after entries made entry service payload update insert conflicts
calls-Stamped = ((1, 1, refl), ((3, 1, refl), ((6, 3, refl), tt)))

read_events_chain-run_example :
    let j = fresh_journal "agent" 5 1 in
    let d = (run tiny calls j no_files).1 in
    (lost kept : List (List (Event tiny))) × (made (print tiny) (batches tiny calls j)
      ≡ lost ++ kept)
    × (read_events_chain tiny 2 d ≡ some (flat kept))
    × ((lost ≡ []) ⊎ (length (parts_from 2 1 d) ≡ 1))
read_events_chain-run_example =
    read_events_chain-run tiny Stamped tiny-IsLawful "agent" 5 0 2 calls (omega arith) calls-Stamped
