-- ===== src/Journal/Calls.antt =====
-- One writer among others: its sequence numbers, and what its calls leave on the disk.
use ironharness.Prelude.{
  ℕ, suc, ◌+◌, ◌≤◌, ◌<◌, ◌≡◌, refl, sym, ap, ap₂, ◌∙◌, subst, Bool, true, false, Option, none, some,
  List, [], ◌∷◌, ◌++◌, ◌⊎◌, length, String, if◌then◌else◌, arith,
}
use ironharness.Prelude.Dict.{lookup}
use ironharness.Journal.{
  Json, Event, JsonlJournal, Disk, reserved, is_empty, conflicts, service, entry, conflict_entry,
  entries, print, call, write,
}
use ironharness.Journal.Entries.{Unique, lookup-entry, lookup-update}
use ironharness.Journal.Memory.{attempt, attempts, made}
use ironharness.Journal.{fresh_journal, parts_from, read_events_chain}
use ironharness.Journal.Memory.{no_files}
use ironharness.Journal.Reading.{IsLawful, All, flat, read_events_chain-attempts}

module _ (json : Json) where
  -- What comes to the files next: a call of this writer, with the clock and the file system's part
  -- in it, or a call of another one.
  pub data Act : Type 0 where
    mine : json.Value → json.Value → Bool → String → Event json → Act
    others : Option (List (Event json)) → Act

  -- What an act of an open journal writes.
  unfoldable pub batch : Act → JsonlJournal → Option (List (Event json))
  batch (others b) j = b
  batch (mine ts ts' works kind items) j =
      if works then some (entries json ts ts' (suc j.seq) j.actor kind items) else none

  unfoldable pub act : Act → JsonlJournal → Disk → JsonlJournal × Disk
  act (others b) j d = (j, attempt (print json) j.max_bytes j.max_files b d)
  act (mine ts ts' works kind items) j d =
      let (r, j', d') = call json ts ts' works kind items j d in (j', d')

  unfoldable pub run : List Act → JsonlJournal → Disk → JsonlJournal × Disk
  run [] j d = (j, d)
  run (a ∷ later) j d = let (j', d') = act a j d in run later j' d'

  -- The writer behind an act, where it is open.
  unfoldable pub after : Act → JsonlJournal → JsonlJournal
  after (others b) j = j
  after (mine ts ts' false kind items) j = record j { seq = suc j.seq }
  after (mine ts ts' true kind items) j = record j {
    seq = suc j.seq + (if is_empty json (conflicts json items) then 0 else 1);
  }

  -- The batches of all, and the entries of this writer.
  unfoldable pub batches : List Act → JsonlJournal → List (Option (List (Event json)))
  batches [] j = []
  batches (a ∷ later) j = batch a j ∷ batches later (after a j)

  unfoldable pub own : List Act → JsonlJournal → List (Event json)
  own [] j = []
  own (others b ∷ later) j = own later j
  own (mine ts ts' false kind items ∷ later) j = own later (after (mine ts ts' false kind items) j)
  own (mine ts ts' true kind items ∷ later) j =
      entries json ts ts' (suc j.seq) j.actor kind items
      ++ own later (after (mine ts ts' true kind items) j)

  act_open :
      (a : Act) (j : JsonlJournal) (d : Disk)
      → j.closed ≡ false
      → act a j d ≡ (after a j, attempt (print json) j.max_bytes j.max_files (batch a j) d)
  unfolding act call attempt batch write after
  act_open (others b) j d open' = refl
  act_open (mine ts ts' true kind items) j d open' = rw open'
  act_open (mine ts ts' false kind items) j d open' = rw open'

  after_closed : (a : Act) (j : JsonlJournal) → (after a j).closed ≡ j.closed
  unfolding after
  after_closed (others b) j = refl
  after_closed (mine ts ts' true kind items) j = refl
  after_closed (mine ts ts' false kind items) j = refl

  after_max_bytes : (a : Act) (j : JsonlJournal) → (after a j).max_bytes ≡ j.max_bytes
  unfolding after
  after_max_bytes (others b) j = refl
  after_max_bytes (mine ts ts' true kind items) j = refl
  after_max_bytes (mine ts ts' false kind items) j = refl

  after_max_files : (a : Act) (j : JsonlJournal) → (after a j).max_files ≡ j.max_files
  unfolding after
  after_max_files (others b) j = refl
  after_max_files (mine ts ts' true kind items) j = refl
  after_max_files (mine ts ts' false kind items) j = refl

  pub run_files :
      (acts : List Act) (j : JsonlJournal) (d : Disk)
      → j.closed ≡ false
      → (run acts j d).1 ≡ attempts (print json) j.max_bytes j.max_files (batches acts j) d
  unfolding run batches attempts
  run_files [] j d open' = refl
  run_files (a ∷ later) j d open' =
      let d' = attempt (print json) j.max_bytes j.max_files (batch a j) d in
      ap (λ (p : JsonlJournal × Disk). (run later p.0 p.1).1) (act_open a j d open')
      ∙ run_files later (after a j) d' (after_closed a j ∙ open')
      ∙ ap₂ (λ x y. attempts (print json) x y (batches later (after a j)) d') (after_max_bytes a j)
          (after_max_files a j)

  -- The numbers of the entries grow from one to the next, all above `low`.
  pub data Growing : ℕ → List (Event json) → Type 0 where
    done : {low : ℕ} → Growing low []
    next :
        {low : ℕ} {e : Event json} {es : List (Event json)} (n : ℕ)
        → low < n
        → lookup "seq" e ≡ some (json.number n)
        → Growing n es
        → Growing low (e ∷ es)

  weaken : {low low' : ℕ} {es : List (Event json)} → low ≤ low' → Growing low' es → Growing low es
  weaken l done = done
  weaken l (next n above s g) = next n (omega arith) s g

  entry-seq :
      (ts : json.Value) (seq : ℕ) (actor kind : String) (items : Event json)
      → Unique items
      → lookup "seq" (entry json ts seq actor kind items) ≡ some (json.number seq)
  unfolding service reserved lookup
  entry-seq ts seq actor kind items u = lookup-entry json "seq" ts seq actor kind items u

  conflict-seq :
      (ts : json.Value) (seq : ℕ) (actor kind : String) (items : Event json)
      → lookup "seq" (conflict_entry json ts seq actor kind items) ≡ some (json.number (suc seq))
  unfolding conflict_entry service lookup
  conflict-seq ts seq actor kind items = lookup-update json "seq" _ _ (refl, (refl, tt))

  conflict-Growing :
      (ts' : json.Value) (n : ℕ) (actor kind : String) (items : Event json) (es : List (Event json))
      (none_found : Bool)
      → Growing (suc n + (if none_found then 0 else 1)) es
      → Growing
          (suc n)
          ((if none_found then [] else conflict_entry json ts' (suc n) actor kind items ∷ []) ++ es)
  conflict-Growing ts' n actor kind items es true g = weaken (omega arith) g
  conflict-Growing ts' n actor kind items es false g =
      next (suc (suc n)) (omega arith) (conflict-seq ts' (suc n) actor kind items)
        (weaken (omega arith) g)

  -- One call, in front of what its writer writes later.
  entries-Growing :
      (ts ts' : json.Value) (n : ℕ) (actor kind : String) (items : Event json)
      (es : List (Event json))
      → Unique items
      → Growing (suc n + (if is_empty json (conflicts json items) then 0 else 1)) es
      → Growing n (entries json ts ts' (suc n) actor kind items ++ es)
  unfolding entries
  entries-Growing ts ts' n actor kind items es u g =
      next (suc n) (omega arith) (entry-seq ts (suc n) actor kind items u)
        (conflict-Growing ts' n actor kind items es (is_empty json (conflicts json items)) g)

  -- The payloads are dictionaries.
  abbrev pub Payloads : List Act → Type 0
  Payloads [] = Unit {0}
  Payloads (others b ∷ later) = Payloads later
  Payloads (mine ts ts' works kind items ∷ later) = Unique items × Payloads later

  -- Whatever other processes write in between, and although some calls fail to open the file, the
  -- numbers of the entries of one writer grow strictly in the order in which it writes them.
  pub own-Growing :
      (acts : List Act) (j : JsonlJournal) → Payloads acts → Growing j.seq (own acts j)
  unfolding own after
  own-Growing [] j u = done
  own-Growing (others b ∷ later) j u = own-Growing later j u
  own-Growing (mine ts ts' false kind items ∷ later) j (u, us) =
      weaken (omega arith) (own-Growing later (record j { seq = suc j.seq }) us)
  own-Growing (mine ts ts' true kind items ∷ later) j (u, us) =
      entries-Growing ts ts' j.seq j.actor kind items _ u (
        own-Growing later
          (record j { seq = suc j.seq + (if is_empty json (conflicts json items) then 0 else 1) })
          us)

  -- A journal is opened in an empty directory and used, together with other processes, and some
  -- calls fail to open the file. Then the chain of files reads as all that was written, entry for
  -- entry and in order, but for the batches of some of the first calls; and none of these is
  -- missing before there are `max_files` rotated files. This is so if the JSON library reads back
  -- all that was written.
  pub read_events_chain-run :
      (P : Event json → Type 0) (law : IsLawful json P) (actor : String) (max_bytes m fuel : ℕ)
      (acts : List Act)
      → suc m < fuel
      → All P (flat (made (print json) (batches acts (fresh_journal actor max_bytes (suc m)))))
      → let j = fresh_journal actor max_bytes (suc m) in
        let d = (run acts j no_files).1 in
        (lost kept : List (List (Event json))) × (made (print json) (batches acts j) ≡ lost ++ kept)
        × (read_events_chain json fuel d ≡ some (flat kept))
        × ((lost ≡ []) ⊎ (length (parts_from fuel 1 d) ≡ suc m))
  read_events_chain-run P law actor max_bytes m fuel acts l h =
      let j = fresh_journal actor max_bytes (suc m) in
      let files = run_files acts j no_files refl in
      let (lost, kept, all, reads, late) =
        read_events_chain-attempts json P law max_bytes m fuel (batches acts j) l h in
      (
        lost,
        kept,
        all,
        ap (read_events_chain json fuel) files ∙ reads,
        subst (λ x. (lost ≡ []) ⊎ (length (parts_from fuel 1 x) ≡ suc m)) (sym files) late,
      )
