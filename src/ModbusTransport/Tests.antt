-- ===== src/ModbusTransport/Tests.antt =====
-- Runs of the Modbus transport over a client that is a number.
use ironharness.Prelude.{ℕ, ◌≡◌, refl, true, false, none, some, [], ◌∷◌}
use ironharness.Policy.{passed}
use ironharness.ModbusTransport.{
  returned, closed_error, os_error, ModbusTransport, registers, is_error, open_transport, close,
  read_holding, write_holding,
}

abbrev fresh : ModbusTransport ℕ
fresh = record { client = none; events = [] }

abbrev linked : ModbusTransport ℕ
linked = record { client = some 7; events = [] }

opened :
    open_transport passed (some 7) (λ c. some true) fresh
    ≡ (returned tt, record { client = some 7; events = "modbus_open" ∷ [] })
unfolding open_transport
opened = refl

-- A client that does not connect stays in its place, so that close has one to close.
half_open :
    close (open_transport passed (some 7) (λ c. some false) fresh).1
    ≡ record { client = none; events = "modbus_open_failed" ∷ "modbus_close" ∷ [] }
unfolding open_transport close
half_open = refl

got :
    read_holding (λ c. registers (c ∷ [])) linked
    ≡ (returned (7 ∷ []), record { client = some 7; events = "modbus_read" ∷ [] })
unfolding read_holding
got = refl

refused :
    write_holding (λ c. is_error) linked
    ≡ (os_error, record { client = some 7; events = "modbus_write_failed" ∷ [] })
unfolding write_holding
refused = refl

shut :
    read_holding (λ c. registers []) fresh
    ≡ (closed_error, record { client = none; events = "modbus_read_failed" ∷ [] })
unfolding read_holding
shut = refl
