-- ===== src/Mprepl/Tests.antt =====
-- A concrete board for src/io_core/mprepl.py, and runs of the transfers on it.
use ironharness.Prelude.{
  true, false, ◌+◌, ◌-◌, ◌≡◌, refl, sym, ap, subst, ◌∙◌, Bool, Option, none, some, [], ◌∷◌, ◌++◌,
  Bytes, length, take, drop, arith, append_assoc, length-append, length-take, take-append_self,
  if◌then◌else◌,
}
use ironharness.Prelude.Search.{starts_with, same_bytes, find}
use ironharness.Prelude.Hex.{hex, from_hex, from_hex-hex, AllBytes, length-hex, hex-printable}
use ironharness.Prelude.Search.{Absent}
use ironharness.Mprepl.{
  Arrivals, ok, err, board_error, space, Link, Command, import_binascii, close, open_write,
  open_read, read, write, codes, command_text, put_file, get_file, enter, dance, or_again, next,
  send, until, until_from, transfer, opened, on_error, write_all, pieces, exec, exit, finish,
  without_mark, strip, lstrip, rstrip,
}
use ironharness.Mprepl.Exec.{Ended, exec-answer, marked, failed}
use ironharness.Mprepl.Answer.{printed}
use ironharness.Mprepl.Device.{
  Board, Does, View, Handle, shut, writing, reading, in_raw, out_of_raw,
}
use ironharness.Mprepl.Files.{get_file-put_file}

-- The file and the position of the handle.
abbrev path : Bytes
path = codes "'a.py'"

abbrev size : Bytes
size = codes "2"

-- The answer in two chunks.
abbrev answer : Bytes → Arrivals
answer out = some (codes "OK" ++ out) ∷ some (4 ∷ 4 ∷ 62 ∷ []) ∷ []

abbrev written : Bytes → Option Bytes → Bytes
written file none = file
written file (some piece) = file ++ piece

unfoldable is : Command → Bytes → Bool
is c bytes = same_bytes (command_text c ++ 4 ∷ []) bytes

-- What the board prints, or none where it raises.
abbrev imports : View → Option (View × Bytes)
imports (in_raw imported h file) = some (in_raw true h file, [])
imports _ = none

abbrev opens_to_write : View → Option (View × Bytes)
opens_to_write (in_raw imported shut file) = some (in_raw imported writing (some []), [])
opens_to_write _ = none

abbrev opens_to_read : View → Option (View × Bytes)
opens_to_read (in_raw imported shut (some text)) =
    some (in_raw imported (reading 0) (some text), [])
opens_to_read _ = none

abbrev reads : View → Option (View × Bytes)
reads (in_raw true (reading at) (some text)) =
    some (in_raw true (reading (at + 2)) (some text), printed (take 2 (drop at text)))
reads _ = none

abbrev writes : Option Bytes → View → Option (View × Bytes)
writes piece (in_raw true writing (some text)) =
    some (in_raw true writing (some (written text piece)), [])
writes piece _ = none

abbrev closes : View → Option (View × Bytes)
closes (in_raw imported writing file) = some (in_raw imported shut file, [])
closes (in_raw imported (reading at) file) = some (in_raw imported shut file, [])
closes _ = none

abbrev answers : View → Option (View × Bytes) → Option (View × Arrivals)
answers v none = some (v, some (codes "OK" ++ 4 ∷ codes "OSError" ++ 4 ∷ 62 ∷ []) ∷ [])
answers v (some (v', out)) = some (v', answer out)

abbrev enters_raw : View → View
enters_raw (out_of_raw h file) = in_raw false h file
enters_raw (in_raw imported h file) = in_raw imported h file

abbrev leaves_raw : View → View
leaves_raw (out_of_raw h file) = out_of_raw h file
leaves_raw (in_raw imported h file) = out_of_raw h file

-- A board is its own view.
unfoldable board : Bytes → View → Option (View × Arrivals)
board bytes v =
    if same_bytes (1 ∷ []) bytes
    then some (enters_raw v, some (codes "raw REPL; CTRL-B to exit") ∷ some (codes ">") ∷ [])
    else if same_bytes (2 ∷ []) bytes
    then some (leaves_raw v, [])
    else if same_bytes (3 ∷ 3 ∷ []) bytes
    then some (v, [])
    else if is import_binascii bytes
    then answers v (imports v)
    else if is (open_write path) bytes
    then answers v (opens_to_write v)
    else if is (open_read path) bytes
    then answers v (opens_to_read v)
    else if is (read size) bytes
    then answers v (reads v)
    else if is close bytes
    then answers v (closes v)
    else if starts_with (codes "f.write(binascii.unhexlify('") bytes
    then answers v (writes (from_hex (take (length (drop 28 bytes) - 4) (drop 28 bytes))) v)
    else answers v none

hexed :
    (text : Bytes)
    → take (length ((text ++ codes "'))") ++ 4 ∷ []) - 4) ((text ++ codes "'))") ++ 4 ∷ []) ≡ text
hexed text =
    ap (take (length ((text ++ codes "'))") ++ 4 ∷ []) - 4))
      (append_assoc text (codes "'))") (4 ∷ []))
    ∙ ap (λ n. take n (text ++ 39 ∷ 41 ∷ 41 ∷ 4 ∷ []))
        (omega
          (arith, length-append text (codes "'))"), length-append (text ++ codes "'))") (4 ∷ [])))
    ∙ take-append_self text (39 ∷ 41 ∷ 41 ∷ 4 ∷ [])

board_write :
    (text piece : Bytes)
    → AllBytes piece
    → board (command_text (write (hex piece)) ++ 4 ∷ []) (in_raw true writing (some text))
      ≡ some (in_raw true writing (some (text ++ piece)), answer [])
unfolding board is command_text same_bytes starts_with
board_write text piece bytes =
    ap (λ o. some (in_raw true writing (some (written text o)), answer []))
      (ap from_hex (hexed (hex piece)) ∙ from_hex-hex piece bytes)

-- A command that prints nothing.
runs :
    (c : Command) (s v v' : View)
    → s ≡ v
    → board (command_text c ++ 4 ∷ []) v ≡ some (v', answer [])
    → Does board (λ t. t) c s (λ out s'. s' ≡ v')
runs c s v v' e known = (
  codes "OK",
  v',
  (codes "OK" ∷ (4 ∷ 4 ∷ 62 ∷ []) ∷ [], ap (board (command_text c ++ 4 ∷ [])) e ∙ known, refl),
  (refl, (refl, tt)),
  omega arith,
  refl,
)

hex-Absent : (part rest : Bytes) → Absent 4 rest → Absent 4 (hex part ++ rest)
unfolding hex
hex-Absent [] rest a = a
hex-Absent (b ∷ part) rest a =
    let (c, d, e, high, low) = hex-printable b part in
    subst (λ (h : Bytes). Absent 4 (h ++ rest)) (sym e)
      (ground arith, (ground arith, hex-Absent part rest a))

unfoldable flash : Board board (λ t. t) path size 2
unfolding board is command_text same_bytes starts_with printed
flash = record {
  view = λ s. s;
  imports = λ s imported h file e.
      runs import_binascii s (in_raw imported h file) (in_raw true h file) e refl;
  opens_to_write = λ s imported file e.
      runs (open_write path) s (in_raw imported shut file) (in_raw imported writing (some [])) e
        refl;
  writes = λ s text piece e bytes.
      runs (write (hex piece)) s (in_raw true writing (some text))
        (in_raw true writing (some (text ++ piece))) e (board_write text piece bytes);
  opens_to_read = λ s imported text e.
      runs (open_read path) s (in_raw imported shut (some text))
        (in_raw imported (reading 0) (some text)) e refl;
  reads = λ s at text e.
      let part = take 2 (drop at text) in
      (
        codes "OK" ++ printed part,
        in_raw true (reading (at + 2)) (some text),
        (
          (codes "OK" ++ printed part) ∷ (4 ∷ 4 ∷ 62 ∷ []) ∷ [],
          ap (board (command_text (read size) ++ 4 ∷ [])) e,
          refl,
        ),
        (
          refl,
          (refl, (refl, (refl, hex-Absent part (39 ∷ 13 ∷ 10 ∷ []) (refl, (refl, (refl, tt)))))),
        ),
        omega (
          arith,
          length-hex part,
          length-append (hex part) (39 ∷ 13 ∷ 10 ∷ []),
          length-take 2 (drop at text),
        ),
        (refl, refl),
      );
  closes_written = λ s imported file e.
      runs close s (in_raw imported writing file) (in_raw imported shut file) e refl;
  closes_read = λ s imported at file e.
      runs close s (in_raw imported (reading at) file) (in_raw imported shut file) e refl;
  leaves = λ s imported h file e. (out_of_raw h file, [], ap (board (2 ∷ [])) e, refl);
}

-- A chunk that is left from the last session stands before the banner.
abbrev fresh : View → Link View
fresh v = record { buf = []; pending = some (codes ">>> ") ∷ []; board = v }

abbrev start : Link View
start = fresh (out_of_raw shut (some (codes "old")))

abbrev script : Bytes
script = codes "x = 1"

abbrev holding : Bytes → View
holding text = out_of_raw shut (some text)

enters :
    (text : Bytes)
    → Ended
        (enter board (λ t. t) 1 (fresh (holding text)))
        (ok tt)
        []
        (in_raw false shut (some text))
unfolding enter dance or_again next send until until_from find starts_with same_bytes board is
    command_text
enters text = (refl, ([], refl, refl), refl)

-- The put takes three writes.
put_leaves : (put_file board (λ t. t) 2 1 script path start).1.board ≡ holding script
unfolding put_file transfer opened on_error write_all pieces exec exit enter dance or_again next
    send until until_from find starts_with same_bytes board is command_text finish without_mark
    strip lstrip rstrip hex from_hex
put_leaves = refl

re_enters :
    (text : Bytes) (h : Handle) (file : Option Bytes)
    → holding text ≡ out_of_raw h file
    → in_raw false shut (some text) ≡ in_raw false h file
re_enters text h file e = ap enters_raw e

get_file-put_file_example :
    ((put_file board (λ t. t) 2 1 script path start).0 ≡ ok 5)
    × ((get_file board (λ t. t) size 1 6 path (fresh (holding script))).0 ≡ ok script)
    × ((get_file board (λ t. t) size 1 6 path (fresh (holding script))).1.board ≡ holding script)
unfolding flash
get_file-put_file_example =
    get_file-put_file board (λ t. t) flash (λ text a. refl) (omega arith) 1 6 script start
      (fresh (holding script)) (in_raw false shut (some (codes "old")))
      (in_raw false shut (some script)) false false (some (codes "old"))
      (omega arith, (omega arith, (omega arith, (omega arith, (omega arith, tt))))) (omega arith)
      (enters (codes "old")) refl (sym put_leaves) (enters script) (re_enters script)

-- A board whose every answer is an error, in two chunks.
abbrev failing : Bytes → View → Option (View × Arrivals)
failing bytes s =
    some (s, some (codes "OK" ++ 4 ∷ codes "OSE") ∷ some (codes "rror" ++ 4 ∷ codes ">") ∷ [])

os_error : strip (codes "OSError") ≡ codes "OSError"
unfolding strip lstrip rstrip space
os_error = refl

exec-answer_example :
    Ended
      (exec failing
        (λ t. t)
        import_binascii
        (record { buf = []; pending = []; board = start.board }))
      (err (board_error (codes "OSError")))
      []
      start.board
exec-answer_example =
    exec-answer failing (λ t. t) import_binascii
      (record { buf = []; pending = []; board = start.board }) (codes "OK") [] (codes "OSError")
      (err (board_error (codes "OSError"))) start.board ([], refl, refl)
      ((codes "OK" ++ 4 ∷ codes "OSE") ∷ (codes "rror" ++ 4 ∷ codes ">") ∷ [], refl, refl)
      (refl, (refl, tt)) (refl, (refl, (refl, (refl, (refl, (refl, (refl, tt))))))) (omega arith)
      (marked []) (failed [] (codes "OSError") 79 (codes "SError") os_error)

failing_finish :
    finish (λ t. t) (codes "OK") (codes "OSError") ≡ err (board_error (codes "OSError"))
unfolding finish without_mark strip lstrip rstrip starts_with space
failing_finish = refl
