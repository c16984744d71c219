-- ===== src/Session/Registry.antt =====
-- Registering a connection, freeing its name and emptying the registries keep the invariant.
use ironharness.Prelude.{◌≡◌, refl, sym, ap, ◌∙◌, ℕ, false, Option, none, some, String}
use ironharness.Prelude.Dict.{
  lookup, has, present, insert, lookup-insert_self, lookup-insert_ne, lookup-remove_self,
  lookup-remove_ne,
}
use ironharness.Session.Life.{insert_transport, free_name, close_clear}
use ironharness.Session.{Session, Kind, serial, modbus, mqtt, same_kind, init}
use ironharness.Session.View.{view, some_kind, serial_kind, Good, Inv, local}

no_kind : (k : Option Kind) → some_kind k ≡ false → serial_kind k ≡ false
no_kind none h = refl
no_kind (some k) h = cc

module _ (name : String) (t : ℕ) (s : Session) (free : has name s.transports ≡ false)
    (v : Inv s) where
  was : Good (view name s)
  was = v.at name

  no_base : has name s.serial_base ≡ false
  no_base = was.based ∙ no_kind (lookup name s.kinds) (sym was.lockstep ∙ free)

  serial-Inv : Inv (insert_transport serial name t s)
  unfolding insert_transport
  serial-Inv =
      local name s (insert_transport serial name t s)
        (λ n e i. record (view n s) {
          open' = present (lookup-insert_ne name s.transports n t e i);
          kind = lookup-insert_ne name s.kinds n serial e i;
          base = present (lookup-insert_ne name s.serial_base n t e i);
        })
        (record {
          lockstep =
              rw (lookup-insert_self name s.transports t, lookup-insert_self name s.kinds serial);
          based =
              rw (lookup-insert_self name s.serial_base t, lookup-insert_self name s.kinds serial);
          attached = λ _. ap present (lookup-insert_self name s.serial_base t);
          reader_transfer = was.reader_transfer;
          reader_monitor = was.reader_monitor;
          transfer_monitor = was.transfer_monitor;
        })
        v

  net-Inv :
      (kind : Kind)
      → same_kind kind serial ≡ false
      → Inv (record s { transports = insert name t s.transports; kinds = insert name kind s.kinds })
  net-Inv kind other =
      local name s
        (record s { transports = insert name t s.transports; kinds = insert name kind s.kinds })
        (λ n e i. record (view n s) {
          open' = present (lookup-insert_ne name s.transports n t e i);
          kind = lookup-insert_ne name s.kinds n kind e i;
        })
        (record {
          lockstep =
              rw (lookup-insert_self name s.transports t, lookup-insert_self name s.kinds kind);
          based = rw (lookup-insert_self name s.kinds kind) (no_base ∙ sym other);
          attached = was.attached;
          reader_transfer = was.reader_transfer;
          reader_monitor = was.reader_monitor;
          transfer_monitor = was.transfer_monitor;
        })
        v

  pub insert_transport-Inv : (kind : Kind) → Inv (insert_transport kind name t s)
  unfolding insert_transport
  insert_transport-Inv serial = serial-Inv
  insert_transport-Inv modbus = net-Inv modbus refl
  insert_transport-Inv mqtt = net-Inv mqtt refl

-- The name is freed once its reader is gone.
pub free_name-Inv :
    (name : String) (s : Session) → has name s.readers ≡ false → Inv s → Inv (free_name name s)
unfolding free_name
free_name-Inv name s r v =
    local name s (free_name name s)
      (λ n e i. record (view n s) {
        open' = present (lookup-remove_ne name s.transports n e i);
        kind = lookup-remove_ne name s.kinds n e i;
        base = present (lookup-remove_ne name s.serial_base n e i);
      })
      (record {
        lockstep = rw (lookup-remove_self name s.transports, lookup-remove_self name s.kinds);
        based = rw (lookup-remove_self name s.serial_base, lookup-remove_self name s.kinds);
        attached = λ h. cc (h, r);
        reader_transfer = (v.at name).reader_transfer;
        reader_monitor = (v.at name).reader_monitor;
        transfer_monitor = (v.at name).transfer_monitor;
      })
      v

pub clear-Inv : (s : Session) → Inv s → Inv (close_clear s)
unfolding close_clear lookup
clear-Inv s v = record {
  at = λ n. record {
    lockstep = refl;
    based = refl;
    attached = λ h. h;
    reader_transfer = refl;
    reader_monitor = refl;
    transfer_monitor = (v.at n).transfer_monitor;
  };
}

pub init-Inv : Inv init
unfolding init lookup
init-Inv = record {
  at = λ n. record {
    lockstep = refl;
    based = refl;
    attached = λ h. h;
    reader_transfer = refl;
    reader_monitor = refl;
    transfer_monitor = refl;
  };
}
