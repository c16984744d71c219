-- ===== src/Session/View.antt =====
-- What the registries say of one name, and the invariant that relates them.
use ironharness.Prelude.{
  ◌≡◌, refl, sym, ap, subst, Bool, true, false, ◌&&◌, Option, none, some, String, if_ind,
  Bool-cases, inl, inr,
}
use ironharness.Prelude.Dict.{
  same, same_iff, lookup, has, present, insert, remove, lookup-insert_ne, lookup-remove_self,
  lookup-remove_ne,
}
use ironharness.Session.{Session, Kind, serial, Outcome, Error, refuse, note, same_kind}

-- What the registries say of one name.
pub record View : Type 0 where
  pub open' : Bool
  pub kind : Option Kind
  pub base : Bool
  pub reader : Bool
  pub transfer : Bool
  pub monitor : Bool

abbrev pub view : String → Session → View
view n s = record {
  open' = has n s.transports;
  kind = lookup n s.kinds;
  base = has n s.serial_base;
  reader = has n s.readers;
  transfer = has n s.transfers;
  monitor = has n s.monitors;
}

abbrev pub some_kind : Option Kind → Bool
some_kind none = false
some_kind (some k) = true

abbrev pub serial_kind : Option Kind → Bool
serial_kind none = false
serial_kind (some k) = same_kind k serial

-- The two registries of a name agree, a raw handle belongs to an open serial connection, a reader
-- to a raw handle, and of a reader, a transfer and a monitor at most one has the name.
pub record Good (v : View) : Type 0 where
  pub lockstep : v.open' ≡ some_kind v.kind
  pub based : v.base ≡ serial_kind v.kind
  pub attached : v.reader ≡ true → v.base ≡ true
  pub reader_transfer : v.reader && v.transfer ≡ false
  pub reader_monitor : v.reader && v.monitor ≡ false
  pub transfer_monitor : v.transfer && v.monitor ≡ false

pub record Inv (s : Session) : Type 0 where
  pub at : (n : String) → Good (view n s)

pub and_false : (b : Bool) → b && false ≡ false
and_false true = refl
and_false false = refl

-- An action on one name.
pub local :
    (name : String) (s s' : Session)
    → ((n : String) → same name n ≡ false → view n s' ≡ view n s)
    → Good (view name s')
    → Inv s
    → Inv s'
local name s s' elsewhere here v = record {
  at = λ n. elim (Bool-cases (same name n)) [
    | inl e ↦ subst (λ k. Good (view k s')) ((same_iff name n).0 e) here
    | inr e ↦ subst Good (sym (elsewhere n e)) (v.at n)
  ];
}

pub refuse-Inv :
    (kind_name name : String) (e : Error) (s : Session) → Inv s → Inv (refuse kind_name name e s).1
unfolding refuse
refuse-Inv kind_name name e s v =
    if_ind (λ (p : Outcome × Session). Inv p.1) s.journal_closed (λ _. v)
      (λ _. record { at = v.at })

pub note-Inv : (kind_name name : String) (s : Session) → Inv s → Inv (note kind_name name s).1
unfolding note
note-Inv kind_name name s v =
    if_ind (λ (p : Outcome × Session). Inv p.1) s.journal_closed (λ _. v)
      (λ _. record { at = v.at })

module _ (name : String) (s : Session) (v : Inv s) where
  here : Good (view name s)
  here = v.at name

  -- Marks and registrations, each under what its gate has tested.
  pub transfer-Inv :
      has name s.readers ≡ false
      → has name s.monitors ≡ false
      → Inv (record s { transfers = insert name tt s.transfers })
  transfer-Inv r m =
      local name s (record s { transfers = insert name tt s.transfers })
        (λ n e i. record (view n s) {
          transfer = present (lookup-insert_ne name s.transfers n tt e i);
        })
        (record {
          lockstep = here.lockstep;
          based = here.based;
          attached = here.attached;
          reader_transfer = rw r;
          reader_monitor = here.reader_monitor;
          transfer_monitor = rw m (and_false _);
        })
        v

  pub monitor-Inv :
      has name s.readers ≡ false
      → has name s.transfers ≡ false
      → Inv (record s { monitors = insert name tt s.monitors })
  monitor-Inv r x =
      local name s (record s { monitors = insert name tt s.monitors })
        (λ n e i. record (view n s) {
          monitor = present (lookup-insert_ne name s.monitors n tt e i);
        })
        (record {
          lockstep = here.lockstep;
          based = here.based;
          attached = here.attached;
          reader_transfer = here.reader_transfer;
          reader_monitor = rw r;
          transfer_monitor = rw x;
        })
        v

  pub reader-Inv :
      has name s.serial_base ≡ true
      → has name s.transfers ≡ false
      → has name s.monitors ≡ false
      → Inv (record s { readers = insert name 0 s.readers })
  reader-Inv b x m =
      local name s (record s { readers = insert name 0 s.readers })
        (λ n e i. record (view n s) { reader = present (lookup-insert_ne name s.readers n 0 e i) })
        (record {
          lockstep = here.lockstep;
          based = here.based;
          attached = λ _. b;
          reader_transfer = rw x (and_false _);
          reader_monitor = rw m (and_false _);
          transfer_monitor = here.transfer_monitor;
        })
        v

  pub transfer_end-Inv : Inv (record s { transfers = remove name s.transfers })
  transfer_end-Inv =
      local name s (record s { transfers = remove name s.transfers })
        (λ n e i. record (view n s) {
          transfer = present (lookup-remove_ne name s.transfers n e i);
        })
        (record {
          lockstep = here.lockstep;
          based = here.based;
          attached = here.attached;
          reader_transfer = rw (lookup-remove_self name s.transfers) (and_false _);
          reader_monitor = here.reader_monitor;
          transfer_monitor = rw (lookup-remove_self name s.transfers);
        })
        v

  pub monitor_end-Inv : Inv (record s { monitors = remove name s.monitors })
  monitor_end-Inv =
      local name s (record s { monitors = remove name s.monitors })
        (λ n e i. record (view n s) { monitor = present (lookup-remove_ne name s.monitors n e i) })
        (record {
          lockstep = here.lockstep;
          based = here.based;
          attached = here.attached;
          reader_transfer = here.reader_transfer;
          reader_monitor = rw (lookup-remove_self name s.monitors) (and_false _);
          transfer_monitor = rw (lookup-remove_self name s.monitors) (and_false _);
        })
        v

  pub reader_end-Inv : Inv (record s { readers = remove name s.readers })
  reader_end-Inv =
      local name s (record s { readers = remove name s.readers })
        (λ n e i. record (view n s) { reader = present (lookup-remove_ne name s.readers n e i) })
        (record {
          lockstep = here.lockstep;
          based = here.based;
          attached = λ h. cc (h, ap present (lookup-remove_self name s.readers));
          reader_transfer = rw (lookup-remove_self name s.readers);
          reader_monitor = rw (lookup-remove_self name s.readers);
          transfer_monitor = here.transfer_monitor;
        })
        v
