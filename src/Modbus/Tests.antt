-- ===== src/Modbus/Tests.antt =====
-- Requests to the simulated Modbus server.
use ironharness.Prelude.{ℕ, ◌≡◌, refl, some, List, [], ◌∷◌, length, arith}
use ironharness.Modbus.{
  ended, answered, word, read_registers, write_register, set_at, handle_pdu, handle_frame,
  handle_round, framed,
}
use ironharness.Modbus.Registers.{write_request, read_request, handle_pdu-handle_pdu}

abbrev bank : List ℕ
bank = 0 ∷ 7 ∷ 0 ∷ 0 ∷ []

single :
    handle_pdu bank (6 ∷ 0 ∷ 2 ∷ 1 ∷ 1 ∷ []) ≡ (some (6 ∷ 0 ∷ 2 ∷ 1 ∷ 1 ∷ []), 0 ∷ 7 ∷ 257 ∷ 0 ∷ [])
unfolding handle_pdu word write_register set_at
single = refl

outside : (handle_pdu bank (3 ∷ 0 ∷ 3 ∷ 0 ∷ 2 ∷ [])).0 ≡ some (131 ∷ 2 ∷ [])
unfolding handle_pdu word read_registers
outside = refl

-- A frame with the length 1 is answered, one with the length 0 ends the connection.
short :
    handle_round bank (0 ∷ 9 ∷ 0 ∷ 0 ∷ 0 ∷ 1 ∷ 5 ∷ [])
    ≡ answered (0 ∷ 9 ∷ 0 ∷ 0 ∷ 0 ∷ 3 ∷ 5 ∷ 128 ∷ 1 ∷ []) [] bank
unfolding handle_round handle_frame word framed
short = refl

unframed : handle_round bank (0 ∷ 9 ∷ 0 ∷ 0 ∷ 0 ∷ 0 ∷ 5 ∷ []) ≡ ended
unfolding handle_round handle_frame word
unframed = refl

handle_pdu-handle_pdu_example :
    ((handle_pdu
        (handle_pdu bank (write_request 1 2 4 (1 ∷ 2 ∷ 3 ∷ 4 ∷ []))).1
        (read_request 1 2)).0
      ≡ some (3 ∷ 4 ∷ 1 ∷ 2 ∷ 3 ∷ 4 ∷ []))
    × (length (handle_pdu bank (write_request 1 2 4 (1 ∷ 2 ∷ 3 ∷ 4 ∷ []))).1 ≡ 4)
handle_pdu-handle_pdu_example =
    handle_pdu-handle_pdu bank 1 (258 ∷ 772 ∷ []) (1 ∷ 2 ∷ 3 ∷ 4 ∷ []) (omega arith) (omega arith)
      (omega arith, (3 ∷ 4 ∷ [], refl, (omega arith, ([], refl, refl))))
