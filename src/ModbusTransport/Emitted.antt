-- ===== src/ModbusTransport/Emitted.antt =====
-- Every request of the Modbus transport leaves one event, which tells whether it has returned, and a
-- host that the policy denies is never reached.
use ironharness.Prelude.{◌≡◌, refl, Bool, true, Option, [], ◌∷◌, ◌++◌, String, if_true, ap}
use ironharness.Policy.{Checked}
use ironharness.ModbusTransport.{
  Answer, returned, policy_violation, closed_error, os_error, client_error, ModbusTransport, Result,
  journaled, read_holding, write_holding, requested, without_value, open_transport,
}

module _ {C : Type 0} where
  -- One event more, of this kind if the call has returned and of that kind if it has raised.
  abbrev pub Told :
      {A : Type 0} → String → String → ModbusTransport C → Answer A × ModbusTransport C → Type 0
  Told ok failed t (returned a, t') = t' ≡ record t { events = t.events ++ ok ∷ [] }
  Told ok failed t (_, t') = t' ≡ record t { events = t.events ++ failed ∷ [] }

  journaled-Told :
      {A : Type 0} (ok failed : String) (a : Answer A) (t : ModbusTransport C)
      → Told ok failed t (journaled ok failed a t)
  journaled-Told ok failed (returned a) t = refl
  journaled-Told ok failed policy_violation t = refl
  journaled-Told ok failed closed_error t = refl
  journaled-Told ok failed os_error t = refl
  journaled-Told ok failed client_error t = refl

  read_holding-Told :
      (request : C → Result) (t : ModbusTransport C)
      → Told "modbus_read" "modbus_read_failed" t (read_holding request t)
  unfolding read_holding
  read_holding-Told request t = journaled-Told _ _ (requested t.client request) t

  write_holding-Told :
      (request : C → Result) (t : ModbusTransport C)
      → Told "modbus_write" "modbus_write_failed" t (write_holding request t)
  unfolding write_holding
  write_holding-Told request t = journaled-Told _ _ (without_value (requested t.client request)) t

  -- Where the policy denies the host, no client is built or connected.
  open_transport-denied :
      (policy : Checked) (built : Option C) (connect : C → Option Bool) (t : ModbusTransport C)
      → policy.denied ≡ true
      → (open_transport policy built connect t).1.client ≡ t.client
  unfolding open_transport
  open_transport-denied policy built connect t denied =
      ap (λ (p : Answer (Unit {0}) × ModbusTransport C). p.1.client) (if_true _ _ denied)
