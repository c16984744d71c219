-- ===== src/Session/Closing.antt =====
-- Opening and closing keep the registries in order.
use ironharness.Prelude.{
  ℕ, ◌≡◌, refl, sym, ap, subst, ◌∙◌, Bool, false, Option, none, some, List, [], ◌∷◌, ◌++◌, map,
  length, String, if_ind, leb,
}
use ironharness.Prelude.Dict.{has, present, lookup-remove_self}
use ironharness.Session.{
  Session, Kind, Entry, entry, Outcome, passed, raised, Error, key_error, os_error, note, is_kind,
}
use ironharness.Session.Life.{
  Reaction, register, close_typed, close_transport, react, and_then, under_limit, insert_transport,
  stop_reader, free_name, trace_close, close_found,
}
use ironharness.Session.View.{Inv, refuse-Inv, reader_end-Inv}
use ironharness.Session.Registry.{insert_transport-Inv, free_name-Inv}

abbrev pub Kept : Outcome × Session → Type 0
Kept p = Inv p.1

-- A reaction writes to the journal only.
abbrev OnlyJournal : Session → Outcome × Session → Type 0
OnlyJournal s p = (j : List Entry) × (p.1 ≡ record s { journal = j })

react-OnlyJournal :
    (name : String) (emits : List String) (e : Option Error) (s : Session)
    → OnlyJournal s (react name (record { emits = emits; error = e }) s)
unfolding react
react-OnlyJournal name [] e s = (s.journal, refl)
react-OnlyJournal name (k ∷ ks) e s =
    if_ind (OnlyJournal s) s.journal_closed (λ _. (s.journal, refl))
      (λ _. (s.journal ++ map (λ kind. entry kind name) (k ∷ ks), refl))

journal-Inv : (s : Session) (p : Outcome × Session) → OnlyJournal s p → Inv s → Kept p
journal-Inv s p (j, e) v = subst Inv (sym e) (record { at = v.at })

and_then-Kept :
    (p : Outcome × Session) (next : Session → Outcome × Session)
    → Kept p
    → (p.0 ≡ passed → Kept (next p.1))
    → Kept (and_then p next)
unfolding and_then
and_then-Kept (passed, s) next v k = k refl
and_then-Kept (raised e, s) next v k = v

module _ (name : String) (s : Session) (v : Inv s) where
  opened :
      (kind : Kind) (t : ℕ) (opening : Reaction)
      → has name s.transports ≡ false
      → Kept (and_then (react name opening s) (λ s''. (passed, insert_transport kind name t s'')))
  opened kind t opening free =
      let only = react-OnlyJournal name opening.emits opening.error s in
      and_then-Kept (react name opening s) _ (journal-Inv s (react name opening s) only v) (λ _.
        insert_transport-Inv name t (react name opening s).1
          (ap (λ (q : Session). has name q.transports) only.1 ∙ free)
          (journal-Inv s (react name opening s) only v) kind)

  limited :
      (limit : Option ℕ) (next : Session → Outcome × Session)
      → Kept (next s)
      → Kept (under_limit limit next s)
  unfolding under_limit
  limited none next k = k
  limited (some l) next k =
      if_ind Kept (leb l (length s.transports)) (λ _. refuse-Inv _ _ _ s v) (λ _. k)

  pub register-Inv :
      (kind : Kind) (limit : Option ℕ) (t : ℕ) (opening : Reaction)
      → Kept (register kind limit name t opening s)
  unfolding register
  register-Inv kind limit t opening =
      if_ind Kept (has name s.transports) (λ _. refuse-Inv _ _ _ s v)
        (λ free. limited limit _ (opened kind t opening free))

  -- Once the reader is stopped, the name has none.
  abbrev Stopped : Outcome × Session → Type 0
  Stopped p = Kept p × (p.0 ≡ passed → has name p.1.readers ≡ false)

  stop_reader-Stopped : (stopped : Bool) → Stopped (stop_reader stopped name s)
  unfolding stop_reader note
  stop_reader-Stopped stopped =
      if_ind Stopped (has name s.readers)
        (λ _.
          if_ind Stopped s.journal_closed (λ _. (reader_end-Inv name s v, λ e. cc))
            (λ _. (
              record { at = (reader_end-Inv name s v).at },
              λ _. ap present (lookup-remove_self name s.readers),
            )))
        (λ none_there. (v, λ _. none_there))

  trace_close-Kept : (p : Outcome × Session) → Kept p → Kept (trace_close name p)
  unfolding trace_close
  trace_close-Kept (passed, q) k = k
  trace_close-Kept (raised os_error, q) k = refuse-Inv "close_failed" name os_error q k
  trace_close-Kept (raised key_error, q) k = k
  trace_close-Kept (raised _, q) k = k

  close_found-Inv :
      (stopped : Bool) (closing : Reaction) → Kept (close_found stopped name closing s)
  unfolding close_found
  close_found-Inv stopped closing =
      let (kept, gone) = stop_reader-Stopped stopped in
      and_then-Kept (stop_reader stopped name s) _ kept λ ok.
        let freed = free_name name (stop_reader stopped name s).1 in
        trace_close-Kept (react name closing freed) (
          journal-Inv freed (react name closing freed)
            (react-OnlyJournal name closing.emits closing.error freed)
            (free_name-Inv name (stop_reader stopped name s).1 (gone ok) kept))

  pub close_typed-Inv :
      (kind : Kind) (stopped : Bool) (closing : Reaction)
      → Kept (close_typed kind stopped name closing s)
  unfolding close_typed
  close_typed-Inv kind stopped closing =
      if_ind Kept (has name s.transports)
        (λ _.
          if_ind Kept (is_kind kind name s) (λ _. close_found-Inv stopped closing)
            (λ _. refuse-Inv _ _ _ s v))
        (λ _. refuse-Inv _ _ _ s v)

  pub close_transport-Inv :
      (stopped : Bool) (closing : Reaction) → Kept (close_transport stopped name closing s)
  unfolding close_transport
  close_transport-Inv stopped closing =
      if_ind Kept (has name s.transports) (λ _. close_found-Inv stopped closing)
        (λ _. refuse-Inv _ _ _ s v)
