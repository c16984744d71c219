-- ===== src/Replay/Session.antt =====
-- Each transport of a replayed session is the replay of its own connection's events.
use text.Mathlib.TextEquality.{eq_iff}
use ironharness.Prelude.{
  ◌≡◌, refl, sym, ap, subst, ◌∙◌, Bool, true, false, ◌||◌, Option, none, some, List, [], ◌∷◌, ◌++◌,
  append-nil, append_assoc, arith, Bytes, String, if◌then◌else◌, Bool-cases, if_true, if_false, inl,
  inr, some_inj,
}
use ironharness.Prelude.Dict.{Dict, same, lookup, insert, lookup-insert}
use ironharness.Replay.{
  Event, Kind, ReplayTransport, conn_of, event_bytes, take_event, load, fresh, init, append_event,
  groups, attach, transports, session,
}

-- The events of one connection, in the order of the journal.
pub only : String → List Event → List Event
only conn [] = []
only conn (e ∷ events) =
    let rest = only conn events in if same (conn_of e) conn then e ∷ rest else rest

abbrev joins : Option (List Event) → List Event → Option (List Event)
joins (some group) later = some (group ++ later)
joins none [] = none
joins none (e ∷ later) = some (e ∷ later)

joins-append :
    (o : Option (List Event)) (e : Event) (later : List Event)
    → joins (some (append_event o e)) later ≡ joins o (e ∷ later)
unfolding append_event
joins-append none e later = refl
joins-append (some group) e later = ap some (append_assoc group (e ∷ []) later)

joins_nothing : (o : Option (List Event)) → o ≡ joins o []
joins_nothing none = refl
joins_nothing (some group) = ap some (sym (append-nil group))

lookup-groups :
    (conn : String) (events : List Event) (g : Dict (List Event))
    → lookup conn (groups events g) ≡ joins (lookup conn g) (only conn events)
unfolding groups only
lookup-groups conn [] g = joins_nothing (lookup conn g)
lookup-groups conn (e ∷ events) g =
    lookup-groups conn events (insert (conn_of e) group g)
    ∙ ap (λ o. joins o (only conn events)) (lookup-insert (conn_of e) conn group g)
    ∙ elim (Bool-cases (same (conn_of e) conn)) [
      | inl hit ↦ rw hit (
          joins-append (lookup (conn_of e) g) e (only conn events)
          ∙ ap (λ k. joins (lookup k g) (e ∷ only conn events)) ((eq_iff (conn_of e) conn).0 hit))
      | inr miss ↦ rw miss
    ]
  where
    group : List Event
    group = append_event (lookup (conn_of e) g) e

take_event-conn :
    (k : Kind) (bytes : Option Bytes) (t t' : ReplayTransport)
    → take_event k bytes t ≡ some t'
    → t'.conn ≡ t.conn
unfolding take_event
take_event-conn k bytes t t' e = ground arith

load-only :
    (conn : String) (events : List Event) (t : ReplayTransport)
    → t.conn ≡ conn
    → load (only conn events) t ≡ load events t
unfolding load only
load-only conn [] t e = refl
load-only conn (x ∷ events) t e = elim (Bool-cases (same (conn_of x) conn)) [
  | inl hit ↦
      let hit' = subst (λ c. same (conn_of x) c ≡ true) (sym e) hit in
      ap (λ l. load l t) (if_true (x ∷ only conn events) (only conn events) hit)
      ∙ if_true _ _ hit'
      ∙ go (take_event x.kind (event_bytes x) t) (take_event-conn x.kind (event_bytes x) t)
          (λ t'. load-only conn events t')
      ∙ sym (if_true _ _ hit')
  | inr miss ↦
      let miss' = subst (λ c. same (conn_of x) c ≡ false) (sym e) miss in
      ap (λ l. load l t) (if_false (x ∷ only conn events) (only conn events) miss)
      ∙ load-only conn events t e
      ∙ sym (if_false _ _ miss')
]
  where
    go :
        (o : Option ReplayTransport)
        → ((t' : ReplayTransport) → o ≡ some t' → t'.conn ≡ t.conn)
        → ((t' : ReplayTransport) → t'.conn ≡ conn → load (only conn events) t' ≡ load events t')
        → elim o as (λ _. Option ReplayTransport) [
          | none ↦ none
          | some t' ↦ load (only conn events) t'
        ]
          ≡ elim o as (λ _. Option ReplayTransport) [ none ↦ none | some t' ↦ load events t' ]
    go none kept ih = refl
    go (some t') kept ih = ih t' (kept t' refl ∙ e)

init-only :
    (strict : Bool) (conn : String) (events : List Event)
    → init (only conn events) strict conn ≡ init events strict conn
unfolding init
init-only strict conn events = load-only conn events (fresh strict conn) refl

-- The transport of a group, for each group of a dictionary that loads.
abbrev loaded : Bool → String → Option (List Event) → Option ReplayTransport
loaded strict conn none = none
loaded strict conn (some group) = init group strict conn

lookup-transports :
    (strict : Bool) (conn : String) (g : Dict (List Event)) (d : Dict ReplayTransport)
    → transports strict g ≡ some d
    → lookup conn d ≡ loaded strict conn (lookup conn g)
unfolding transports lookup
lookup-transports strict conn [] d e = ap (lookup conn) (sym (some_inj e))
lookup-transports strict conn ((name, group) ∷ g) d e =
    go (init group strict name) (transports strict g) refl
      (λ ts p. lookup-transports strict conn g ts p) e
  where
    go :
        (o : Option ReplayTransport) (later : Option (Dict ReplayTransport))
        → init group strict name ≡ o
        → ((ts : Dict ReplayTransport)
            → later ≡ some ts
            → lookup conn ts ≡ loaded strict conn (lookup conn g))
        → attach name o later ≡ some d
        → lookup conn d ≡ loaded strict conn (if same name conn then some group else lookup conn g)
    go none later o_is ih e = cc
    go (some t) none o_is ih e = cc
    go (some t) (some ts) o_is ih e =
        ap (lookup conn) (sym (some_inj e)) ∙ elim (Bool-cases (same name conn)) [
          | inl hit ↦ rw hit (sym o_is ∙ ap (init group strict) ((eq_iff name conn).0 hit))
          | inr miss ↦ rw miss (ih ts refl)
        ]

pub appears : String → List Event → Bool
appears conn [] = false
appears conn (e ∷ events) = same (conn_of e) conn || appears conn events

loaded-only :
    (strict : Bool) (conn : String) (events : List Event)
    → loaded strict conn (joins none (only conn events))
      ≡ (if appears conn events then init (only conn events) strict conn else none)
unfolding only appears
loaded-only strict conn [] = refl
loaded-only strict conn (e ∷ events) = elim (Bool-cases (same (conn_of e) conn)) [
  | inl hit ↦ rw hit
  | inr miss ↦ rw miss (loaded-only strict conn events)
]

-- Where a whole session loads, the transport under a name is the one that is built for that name
-- from all events of the journal, and a name that no event has has no transport. So no answer of
-- one connection can be read from another.
pub lookup-session :
    (strict : Bool) (events : List Event) (d : Dict ReplayTransport) (conn : String)
    → session strict events ≡ some d
    → lookup conn d ≡ (if appears conn events then init events strict conn else none)
unfolding session
lookup-session strict events d conn e =
    lookup-transports strict conn (groups events []) d e
    ∙ ap (loaded strict conn) (lookup-groups conn events [] ∙ nothing_yet)
    ∙ loaded-only strict conn events
    ∙ ap (λ t. if appears conn events then t else none) (init-only strict conn events)
  where
    nothing_yet : joins (lookup conn []) (only conn events) ≡ joins none (only conn events)
    nothing_yet = unfold lookup in refl
