-- ===== src/Journal/Numbers.antt =====
-- The numbers of `JsonlJournal.__call__` in src/io_core/journal.py: what the calls of one writer put
-- into the files, among the calls of others.
use ironharness.Prelude.{
  suc, ◌≡◌, refl, sym, ap, subst, true, false, Option, none, some, List, [], ◌∷◌, ◌++◌,
}
use ironharness.Journal.{Json, Event, JsonlJournal, Disk, print, entries}
use ironharness.Journal.Memory.{attempts}
use ironharness.Journal.Calls.{
  Act, mine, others, batch, run, after, batches, own, run_files, Growing, Payloads, own-Growing,
}

module _ (json : Json) where
  -- A batch for each act: a call of this writer that works writes one entry or more, a call that
  -- fails to open the file writes none, and another writer's act writes its own.
  abbrev pub Logged : List (Act json) → List (Option (List (Event json))) → Type 0
  Logged [] [] = Unit {0}
  Logged [] (b ∷ bs) = ⊥
  Logged (a ∷ later) [] = ⊥
  Logged (others b ∷ later) (b' ∷ bs) = (b' ≡ b) × Logged later bs
  Logged (mine ts ts' true kind items ∷ later) (b ∷ bs) =
      ((e : Event json) × (es : List (Event json)) × (b ≡ some (e ∷ es))) × Logged later bs
  Logged (mine ts ts' false kind items ∷ later) (b ∷ bs) = (b ≡ none) × Logged later bs

  -- The entries in this writer's batches.
  abbrev pub mine_of : List (Act json) → List (Option (List (Event json))) → List (Event json)
  mine_of [] bs = []
  mine_of (a ∷ later) [] = []
  mine_of (others b ∷ later) (b' ∷ bs) = mine_of later bs
  mine_of (mine ts ts' works kind items ∷ later) (none ∷ bs) = mine_of later bs
  mine_of (mine ts ts' works kind items ∷ later) (some es ∷ bs) = es ++ mine_of later bs

  batches-Logged : (acts : List (Act json)) (j : JsonlJournal) → Logged acts (batches json acts j)
  unfolding batches batch entries
  batches-Logged [] j = tt
  batches-Logged (others b ∷ later) j = (refl, batches-Logged later (after json (others b) j))
  batches-Logged (mine ts ts' true kind items ∷ later) j =
      ((_, _, refl), batches-Logged later (after json (mine ts ts' true kind items) j))
  batches-Logged (mine ts ts' false kind items ∷ later) j =
      (refl, batches-Logged later (after json (mine ts ts' false kind items) j))

  mine_of-batches :
      (acts : List (Act json)) (j : JsonlJournal)
      → mine_of acts (batches json acts j) ≡ own json acts j
  unfolding batches batch own after
  mine_of-batches [] j = refl
  mine_of-batches (others b ∷ later) j = mine_of-batches later j
  mine_of-batches (mine ts ts' true kind items ∷ later) j =
      ap (λ es. entries json ts ts' (suc j.seq) j.actor kind items ++ es)
        (mine_of-batches later (after json (mine ts ts' true kind items) j))
  mine_of-batches (mine ts ts' false kind items ∷ later) j =
      mine_of-batches later (after json (mine ts ts' false kind items) j)

  -- The calls of an open journal, with what other writers do in between, leave the files as if one
  -- batch for each had been written, one or more entries for a call that works and none for a call
  -- that fails to open the file; and the numbers of this writer's entries grow strictly, from above
  -- the last number that it had used, in the order in which they are written.
  pub run-Growing :
      (acts : List (Act json)) (j : JsonlJournal) (d : Disk)
      → j.closed ≡ false
      → Payloads json acts
      → (bs : List (Option (List (Event json)))) × Logged acts bs
        × ((run json acts j d).1 ≡ attempts (print json) j.max_bytes j.max_files bs d)
        × Growing json j.seq (mine_of acts bs)
  run-Growing acts j d open' u = (
    batches json acts j,
    batches-Logged acts j,
    run_files json acts j d open',
    subst (Growing json j.seq) (sym (mine_of-batches acts j)) (own-Growing json acts j u),
  )
