-- ===== src/Mprepl.antt =====
-- src/io_core/mprepl.py: files to and from a board over its raw REPL.
--
-- The board is a parameter: what a write makes it send, as the chunks that the reads will get. A
-- chunk may be late: then the clock has reached the deadline before it. Where nothing more is on
-- its way the reads get nothing until the deadline. The codec of texts is a parameter too.
pub mod Stream
pub mod Exec
pub mod Answer
pub mod Device
pub mod Loops
pub mod Files
mod Tests
use ironharness.Prelude.{
  ℕ, zero, suc, ◌+◌, ◌-◌, Bool, true, false, ◌&&◌, ◌||◌, Option, none, some, List, [], ◌∷◌, ◌++◌,
  Bytes, length, take, drop, String, ltb, leb, ◌==◌, if◌then◌else◌,
}
unfoldable pub use ironharness.Prelude.Text.{codes, space, lstrip, rstrip, strip}
use ironharness.Prelude.Search.{find, starts_with, same_bytes}
use ironharness.Prelude.Hex.{hex, from_hex}

abbrev pub max_stream_buf : ℕ
max_stream_buf = 262144

pub data Error : Type 0 where
  timeout : Error
  -- TransportIoError, of the link or of a buffer that is too long
  io_error : Error
  -- MpReplError
  board_error : Bytes → Error
  -- ValueError, of bytes.fromhex
  value_error : Error
  -- the loop of get_file has not ended yet
  unfinished : Error

pub data Result (A : Type 0) : Type 0 where
  ok : A → Result A
  err : Error → Result A

-- A chunk, or none where it is late.
abbrev pub Arrivals : Type 0
Arrivals = List (Option Bytes)

pub record Link (S : Type 0) : Type 0 where
  pub buf : Bytes
  pub pending : Arrivals
  pub board : S

-- What stands before the terminator, and what behind it.
abbrev pub cut : Bytes → Bytes → Option ℕ → Option (Bytes × Bytes)
cut terminator buf none = none
cut terminator buf (some at) = some (take at buf, drop (at + length terminator) buf)

-- The end of `until` where the terminator is in the buffer; the second argument is its loop.
abbrev pub answered :
    Option (Bytes × Bytes)
    → Result Bytes × Bytes × Arrivals
    → Arrivals
    → Result Bytes × Bytes × Arrivals
answered none loop pending = loop
answered (some (piece, rest)) loop pending = (ok piece, rest, pending)

-- `until`: the answer, the buffer and what has not been read yet.
unfoldable pub until_from : Bytes → Bytes → Arrivals → Result Bytes × Bytes × Arrivals
until_from terminator buf [] =
    answered (cut terminator buf (find terminator buf)) (err timeout, buf, []) []
until_from terminator buf (none ∷ later) =
    answered (cut terminator buf (find terminator buf)) (err timeout, buf, later) (none ∷ later)
until_from terminator buf (some chunk ∷ later) =
    let more = until_from terminator (buf ++ chunk) later in
    answered (cut terminator buf (find terminator buf))
      (if ltb max_stream_buf (length (buf ++ chunk))
        then (err io_error, buf ++ chunk, later)
        else more)
      (some chunk ∷ later)

-- The pieces of a text, `chunk` bytes each. The text is fuel enough for itself.
unfoldable pub pieces : ℕ → Bytes → Bytes → List Bytes
pieces chunk fuel [] = []
pieces chunk [] (b ∷ bs) = []
pieces chunk (_ ∷ fuel) (b ∷ bs) = take chunk (b ∷ bs) ∷ pieces chunk fuel (drop chunk (b ∷ bs))

-- The commands, with the path as Python writes it.
pub data Command : Type 0 where
  import_binascii close : Command
  open_write open_read write : Bytes → Command
  read : Bytes → Command

unfoldable pub command_text : Command → Bytes
command_text import_binascii = codes "import binascii"
command_text close = codes "f.close()"
command_text (open_write path) = codes "f = open(" ++ path ++ codes ", 'wb')"
command_text (open_read path) = codes "f = open(" ++ path ++ codes ", 'rb')"
command_text (write piece) = codes "f.write(binascii.unhexlify('" ++ piece ++ codes "'))"
command_text (read size) = codes "print(binascii.hexlify(f.read(" ++ size ++ codes ")))"

-- The answer of an exec, once its three parts have been read.
unfoldable pub without_mark : Bytes → Bytes
without_mark out = if starts_with (codes "OK") out then drop 2 out else out

abbrev pub raised : Bytes → Bytes → Result Bytes
raised [] text = ok text
raised (c ∷ error) text = err (board_error (c ∷ error))

unfoldable pub finish : (Bytes → Bytes) → Bytes → Bytes → Result Bytes
finish decode out error = raised (strip (decode error)) (decode (without_mark out))

abbrev pub parsed : Option Bytes → Result (Option Bytes)
parsed none = err value_error
parsed (some part) = ok (some part)

-- The answer to a read command: none at the end of the file.
unfoldable pub read_answer : Bytes → Result (Option Bytes)
read_answer out =
    if same_bytes out [] || same_bytes out (codes "b''")
    then ok none
    else if starts_with (codes "b'") out && same_bytes (drop (length out - 1) out) (codes "'")
    then parsed (from_hex (take (length out - 3) (drop 2 out)))
    else err (board_error out)

-- What an operation is: a result, and the link behind it.
abbrev pub Op : Type 0 → Type 0 → Type 0
Op S A = Link S → Result A × Link S

module _ {S : Type 0} where
  unfoldable pub next : {A B : Type 0} → Result A × Link S → (A → Op S B) → Result B × Link S
  next (ok a, l) f = f a l
  next (err e, l) f = (err e, l)

  -- `except BaseException: …; raise`
  unfoldable pub on_error : {A : Type 0} → (Link S → Link S) → Result A × Link S → Result A × Link S
  on_error clean (ok a, l) = (ok a, l)
  on_error clean (err e, l) = (err e, clean l)

  unfoldable pub until : Bytes → Op S Bytes
  until terminator l =
      let (r, buf, pending) = until_from terminator l.buf l.pending in
      (r, record { buf = buf; pending = pending; board = l.board })

  abbrev pub sent : Option (S × Arrivals) → Op S (Unit {0})
  sent none l = (err io_error, l)
  sent (some (board, arrivals)) l =
      (ok tt, record { buf = l.buf; pending = l.pending ++ arrivals; board = board })

  -- What the board does with a write; none where the link fails.
  module _ (respond : Bytes → S → Option (S × Arrivals)) (decode : Bytes → Bytes) where
    unfoldable pub send : Bytes → Op S (Unit {0})
    send bytes l = sent (respond bytes l.board) l

    -- `exec_`
    unfoldable pub exec : Command → Op S Bytes
    exec c l = next (send (command_text c ++ 4 ∷ []) l) λ _ l1. next (until (4 ∷ []) l1) λ out l2.
        next (until (4 ∷ []) l2)
          λ error l3. next (until (codes ">") l3) λ _ l4. (finish decode out error, l4)

    -- One attempt of `enter`.
    unfoldable pub dance : Op S (Unit {0})
    dance l = next (send (2 ∷ []) l) λ _ l1. next (send (3 ∷ 3 ∷ []) l1) λ _ l2.
        next (send (1 ∷ []) l2) λ _ l3.
          next (until (codes "raw REPL") l3) λ _ l4. next (until (codes ">") l4) λ _ l5. (ok tt, l5)

    -- The attempt's end: a timeout is the only error that another attempt follows.
    unfoldable pub or_again :
        Result (Unit {0}) × Link S
        → (Link S → Result (Unit {0}) × Link S)
        → Result (Unit {0}) × Link S
    or_again (ok _, l) again = (ok tt, l)
    or_again (err timeout, l) again = again l
    or_again (err io_error, l) again = (err io_error, l)
    or_again (err (board_error e), l) again = (err (board_error e), l)
    or_again (err value_error, l) again = (err value_error, l)
    or_again (err unfinished, l) again = (err unfinished, l)

    -- `enter`, where the clock allows `retries` more attempts after the first.
    unfoldable pub enter : ℕ → Op S (Unit {0})
    enter zero l = dance l
    enter (suc retries) l = or_again (dance l) (enter retries)

    -- `exit_`: whatever the write raises is dropped.
    unfoldable pub exit : Link S → Link S
    exit l = (send (2 ∷ []) l).1

    unfoldable pub best_effort_close : Link S → Link S
    best_effort_close l = (exec close l).1

    unfoldable pub write_all : List Bytes → Op S (Unit {0})
    write_all [] l = next (exec close l) λ _ l'. (ok tt, l')
    write_all (piece ∷ more) l = next (exec (write (hex piece)) l) λ _. write_all more

    -- The loop of `get_file`, the file's text so far behind it. Its fuel is the number of reads.
    unfoldable pub read_on : Bytes → (Bytes → Op S Bytes) → Result (Option Bytes) → Op S Bytes
    read_on parts again (err e) l = (err e, l)
    read_on parts again (ok none) l = next (exec close l) λ _ l'. (ok parts, l')
    read_on parts again (ok (some part)) l = again (parts ++ part) l

    unfoldable pub read_all : Bytes → ℕ → Bytes → Op S Bytes
    read_all size zero parts l = (err unfinished, l)
    read_all size (suc fuel) parts l =
        next (exec (read size) l)
          λ out. read_on parts (read_all size fuel) (read_answer (strip out))

    -- What both transfers share: the opening and the two clean-ups.
    unfoldable pub opened : {A : Type 0} → Command → Op S A → Op S A
    opened open_command body l1 = on_error exit (
        next (exec import_binascii l1)
          λ _ l2. next (exec open_command l2) λ _ l3. on_error best_effort_close (body l3))

    unfoldable pub transfer : {A : Type 0} → ℕ → Command → Op S A → Op S A
    transfer retries open_command body l =
        next (enter retries l) λ _ l1. next (opened open_command body l1) λ a l2. (ok a, exit l2)

    unfoldable pub put_file : ℕ → ℕ → Bytes → Bytes → Op S ℕ
    put_file chunk retries text path =
        transfer retries (open_write path)
          λ l. next (write_all (pieces chunk text text) l) λ _ l'. (ok (length text), l')

    unfoldable pub get_file : Bytes → ℕ → ℕ → Bytes → Op S Bytes
    get_file size retries fuel path = transfer retries (open_read path) (read_all size fuel [])
