-- ===== src/Modbus.antt =====
-- src/io_core/modbus_sim.py: the simulated Modbus TCP server.
--
-- A connection is the bytes that will still come before the client closes it. An answer that cannot
-- be packed (bytes() and struct.pack raise) gives none: the handler of the connection ends with it.
pub mod Registers
mod Tests
use ironharness.Prelude.{
  ℕ, zero, suc, ◌+◌, ◌-◌, ◌*◌, ◌/◌, ◌%◌, Bool, true, false, ◌&&◌, ◌||◌, Option, none, some, List,
  [], ◌∷◌, ◌++◌, Bytes, length, take, drop, ltb, leb, ◌==◌, if◌then◌else◌,
}

-- struct.unpack(">H") and struct.pack(">H")
unfoldable pub word : ℕ → ℕ → ℕ
word high low = high * 256 + low

unfoldable pub words : Bytes → List ℕ
words [] = []
words (b ∷ []) = []
words (high ∷ low ∷ bytes) = word high low ∷ words bytes

abbrev pub push_word : ℕ → Option Bytes → Option Bytes
push_word v none = none
push_word v (some bytes) = some (v / 256 ∷ v % 256 ∷ bytes)

unfoldable pub pack : List ℕ → Option Bytes
pack [] = some []
pack (v ∷ values) = let rest = push_word v (pack values) in if ltb v 65536 then rest else none

abbrev pub answer_read : ℕ → Option Bytes → Option Bytes
answer_read qty none = none
answer_read qty (some bytes) = some (3 ∷ qty * 2 ∷ bytes)

-- FC3; bytes([3, qty * 2]) takes no more than 255.
unfoldable pub read_registers : List ℕ → ℕ → ℕ → Option Bytes
read_registers regs start qty =
    if ltb (length regs) (start + qty)
    then some (131 ∷ 2 ∷ [])
    else if ltb 255 (qty * 2)
    then none
    else answer_read qty (pack (take qty (drop start regs)))

unfoldable pub set_at : ℕ → ℕ → List ℕ → List ℕ
set_at addr v [] = []
set_at zero v (r ∷ regs) = v ∷ regs
set_at (suc addr) v (r ∷ regs) = r ∷ set_at addr v regs

-- FC6
unfoldable pub write_register : List ℕ → ℕ → ℕ → Bytes → Option Bytes × List ℕ
write_register regs addr v echo =
    if leb (length regs) addr then (some (134 ∷ 2 ∷ []), regs) else (some echo, set_at addr v regs)

-- FC16, where the frame's bytes behind the byte count are `bytes`.
unfoldable pub write_registers : List ℕ → ℕ → ℕ → Bytes → Option Bytes × List ℕ
write_registers regs start qty bytes =
    if ltb (length bytes) (qty * 2)
    then (some (144 ∷ 3 ∷ []), regs)
    else if ltb (length regs) (start + qty)
    then (some (144 ∷ 2 ∷ []), regs)
    else (
      some (16 ∷ start / 256 ∷ start % 256 ∷ qty / 256 ∷ qty % 256 ∷ []),
      take start regs ++ (words (take (qty * 2) bytes) ++ drop (start + qty) regs),
    )

-- bytes([fc | 0x80, 0x01])
unfoldable pub unsupported : ℕ → Bytes
unsupported fc = (if ltb fc 128 then fc + 128 else fc) ∷ 1 ∷ []

unfoldable pub handle_block : List ℕ → ℕ → ℕ → ℕ → Bytes → Option Bytes × List ℕ
handle_block regs fc start qty [] = (some (unsupported fc), regs)
handle_block regs fc start qty (byte_count ∷ bytes) =
    if fc == 16 then write_registers regs start qty bytes else (some (unsupported fc), regs)

-- `_handle_pdu`: the answer and the registers.
unfoldable pub handle_pdu : List ℕ → Bytes → Option Bytes × List ℕ
handle_pdu regs [] = (some (128 ∷ 1 ∷ []), regs)
handle_pdu regs (fc ∷ a ∷ b ∷ c ∷ d ∷ rest) =
    if fc == 3
    then (read_registers regs (word a b) (word c d), regs)
    else if fc == 6
    then write_register regs (word a b) (word c d) (fc ∷ a ∷ b ∷ c ∷ d ∷ [])
    else handle_block regs fc (word a b) (word c d) rest
handle_pdu regs (fc ∷ few) = (some (unsupported fc), regs)

-- One round of `handle` on what is still to come: the connection ends, or an answer is sent and the
-- rest is still to come.
pub data Round : Type 0 where
  ended : Round
  -- the handler raises
  crashed : Round
  answered : Bytes → Bytes → List ℕ → Round

-- struct.pack(">HHHB", tid, 0, len(resp) + 1, uid) + resp
unfoldable pub framed : ℕ → ℕ → ℕ → Bytes → Bytes
framed t u uid resp =
    let size = length resp + 1 in t ∷ u ∷ 0 ∷ 0 ∷ size / 256 ∷ size % 256 ∷ uid ∷ resp

abbrev pub reply : ℕ → ℕ → ℕ → Bytes → Option Bytes × List ℕ → Round
reply t u uid rest (none, regs) = crashed
reply t u uid rest (some resp, regs) = answered (framed t u uid resp) rest regs

unfoldable pub handle_frame : List ℕ → ℕ → ℕ → ℕ → ℕ → Bytes → Round
handle_frame regs t u size uid bytes =
    if size == 0 || ltb 260 size
    then ended
    else if ltb size 2
    then answered (framed t u uid (128 ∷ 1 ∷ [])) bytes regs
    else if ltb (length bytes) (size - 1)
    then ended
    else reply t u uid (drop (size - 1) bytes) (handle_pdu regs (take (size - 1) bytes))

unfoldable pub handle_round : List ℕ → Bytes → Round
handle_round regs (t ∷ u ∷ p ∷ q ∷ high ∷ low ∷ uid ∷ bytes) =
    if word p q == 0 then handle_frame regs t u (word high low) uid bytes else ended
handle_round regs few = ended
