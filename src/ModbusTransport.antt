-- ===== src/ModbusTransport.antt =====
-- src/io_core/modbus_transport.py: the transport over a Modbus client.
--
-- The client is a parameter: what its constructor, `connect` and its requests give. An event is its
-- kind.
pub mod Emitted
mod Tests
use ironharness.Prelude.{
  ℕ, Bool, true, false, Option, none, some, List, [], ◌∷◌, ◌++◌, String, if◌then◌else◌,
}
use ironharness.Policy.{Checked}

-- What a call gives, or what it raises.
pub data Answer (A : Type 0) : Type 0 where
  returned : A → Answer A
  policy_violation closed_error os_error client_error : Answer A

pub record ModbusTransport (C : Type 0) : Type 0 where
  pub client : Option C
  pub events : List String

-- What a request of the client gives: registers, a result that is an error, or an exception.
pub data Result : Type 0 where
  registers : List ℕ → Result
  is_error raises : Result

abbrev pub without_value : Answer (List ℕ) → Answer (Unit {0})
without_value (returned values) = returned tt
without_value policy_violation = policy_violation
without_value closed_error = closed_error
without_value os_error = os_error
without_value client_error = client_error

module _ {C : Type 0} where
  abbrev pub emit : String → ModbusTransport C → ModbusTransport C
  emit kind t = record t { events = t.events ++ kind ∷ [] }

  -- `open`, behind the policy's check. `built` is the new client, none where the constructor raises;
  -- a client that does not connect stays in its place.
  abbrev pub connected : C → Option Bool → ModbusTransport C → Answer (Unit {0}) × ModbusTransport C
  connected c (some true) t = (returned tt, emit "modbus_open" (record t { client = some c }))
  connected c (some false) t = (os_error, emit "modbus_open_failed" (record t { client = some c }))
  connected c none t = (client_error, emit "modbus_open_failed" (record t { client = some c }))

  abbrev pub constructed :
      Option C → (C → Option Bool) → ModbusTransport C → Answer (Unit {0}) × ModbusTransport C
  constructed none connect t = (client_error, emit "modbus_open_failed" t)
  constructed (some c) connect t = connected c (connect c) t

  unfoldable pub open_transport :
      Checked
      → Option C
      → (C → Option Bool)
      → ModbusTransport C
      → Answer (Unit {0}) × ModbusTransport C
  open_transport policy built connect t =
      if policy.denied
      then (policy_violation, record t { events = t.events ++ denials policy.events })
      else constructed built connect t
    where
      denials : {V : Type 0} → List V → List String
      denials [] = []
      denials (v ∷ vs) = "policy_violation" ∷ denials vs

  abbrev pub close_client : Option C → ModbusTransport C → ModbusTransport C
  close_client none t = t
  close_client (some c) t = emit "modbus_close" (record t { client = none })

  unfoldable pub close : ModbusTransport C → ModbusTransport C
  close t = close_client t.client t

  -- What a request comes to: `_require_client`, the client's answer and `_check`.
  abbrev pub requested : Option C → (C → Result) → Answer (List ℕ)
  requested none request = closed_error
  requested (some c) request = checked (request c)
    where
      checked : Result → Answer (List ℕ)
      checked (registers values) = returned values
      checked is_error = os_error
      checked raises = client_error

  abbrev pub journaled :
      {A : Type 0} → String → String → Answer A → ModbusTransport C → Answer A × ModbusTransport C
  journaled ok failed (returned a) t = (returned a, emit ok t)
  journaled ok failed policy_violation t = (policy_violation, emit failed t)
  journaled ok failed closed_error t = (closed_error, emit failed t)
  journaled ok failed os_error t = (os_error, emit failed t)
  journaled ok failed client_error t = (client_error, emit failed t)

  unfoldable pub read_holding :
      (C → Result) → ModbusTransport C → Answer (List ℕ) × ModbusTransport C
  read_holding request t =
      journaled "modbus_read" "modbus_read_failed" (requested t.client request) t

  -- `write_register` and `write_registers`, by the request that they make.
  unfoldable pub write_holding :
      (C → Result) → ModbusTransport C → Answer (Unit {0}) × ModbusTransport C
  write_holding request t =
      journaled "modbus_write" "modbus_write_failed" (without_value (requested t.client request)) t
