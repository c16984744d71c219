-- ===== src/Mprepl/Device.antt =====
-- A board that holds one file and runs the commands of src/io_core/mprepl.py on it, and what a
-- command does on such a board.
use ironharness.Prelude.{
  ℕ, Bool, true, ◌+◌, ◌≤◌, ◌≡◌, sym, ap, subst, ◌∙◌, Option, some, [], ◌∷◌, ◌++◌, Bytes, length,
  take, drop, arith, length-append,
}
use ironharness.Prelude.Hex.{hex, AllBytes}
use ironharness.Prelude.Search.{Absent}
use ironharness.Mprepl.{
  Arrivals, Result, ok, err, Link, Op, Command, import_binascii, close, open_write, open_read,
  write, read, codes, exec, next, finish, raised, without_mark, strip, lstrip, rstrip,
  max_stream_buf,
}
use ironharness.Mprepl.Exec.{Unread, Ended, Answers, exec-finish}
use ironharness.Mprepl.Answer.{printed, said}

-- What is open on a board, and for a file that is read, how many bytes have been asked for.
pub data Handle : Type 0 where
  shut writing : Handle
  reading : ℕ → Handle

-- A board: in the raw mode, whether binascii has been imported in it; what is open; and the file at
-- the path, if there is one.
pub data View : Type 0 where
  out_of_raw : Handle → Option Bytes → View
  in_raw : Bool → Handle → Option Bytes → View

module _ {S : Type 0} (respond : Bytes → S → Option (S × Arrivals)) (decode : Bytes → Bytes) where
  -- The board runs a command without an error; its output and its state are as said.
  abbrev pub Does : Command → S → (Bytes → S → Type 0) → Type 0
  Does c s Said =
      (out : Bytes) × (s' : S) × Answers respond decode c s out [] s'
      × Absent 4 out
      × (length out + 3 ≤ max_stream_buf)
      × Said out s'

  -- A board whose file at `path` a transfer uses: what MicroPython does on the commands, where it
  -- raises nothing. Only in the raw mode does it run any; a write and a read want the import, and a
  -- file that is open for them; an open wants no file open, and to read, one at the path; a close
  -- wants one open. `size` is what Python writes for `chunk`.
  pub record Board (path size : Bytes) (chunk : ℕ) : Type 0 where
    pub view : S → View
    pub imports :
        (s : S) (imported : Bool) (h : Handle) (file : Option Bytes)
        → view s ≡ in_raw imported h file
        → Does import_binascii s (λ out s'. view s' ≡ in_raw true h file)
    pub opens_to_write :
        (s : S) (imported : Bool) (file : Option Bytes)
        → view s ≡ in_raw imported shut file
        → Does (open_write path) s (λ out s'. view s' ≡ in_raw imported writing (some []))
    pub writes :
        (s : S) (text piece : Bytes)
        → view s ≡ in_raw true writing (some text)
        → AllBytes piece
        → Does
            (write (hex piece))
            s
            (λ out s'. view s' ≡ in_raw true writing (some (text ++ piece)))
    pub opens_to_read :
        (s : S) (imported : Bool) (text : Bytes)
        → view s ≡ in_raw imported shut (some text)
        → Does (open_read path) s (λ out s'. view s' ≡ in_raw imported (reading 0) (some text))
    pub reads :
        (s : S) (at : ℕ) (text : Bytes)
        → view s ≡ in_raw true (reading at) (some text)
        → Does (read size) s (λ out s'.
          (out ≡ codes "OK" ++ printed (take chunk (drop at text)))
          × (view s' ≡ in_raw true (reading (at + chunk)) (some text)))
    pub closes_written :
        (s : S) (imported : Bool) (file : Option Bytes)
        → view s ≡ in_raw imported writing file
        → Does close s (λ out s'. view s' ≡ in_raw imported shut file)
    pub closes_read :
        (s : S) (imported : Bool) (at : ℕ) (file : Option Bytes)
        → view s ≡ in_raw imported (reading at) file
        → Does close s (λ out s'. view s' ≡ in_raw imported shut file)
    -- Ctrl+B leaves the raw mode, and neither the file nor what is open changes.
    pub leaves :
        (s : S) (imported : Bool) (h : Handle) (file : Option Bytes)
        → view s ≡ in_raw imported h file
        → (s' : S) × (arrivals : Arrivals) × (respond (2 ∷ []) s ≡ some (s', arrivals))
          × (view s' ≡ out_of_raw h file)

  -- An operation that ends well with nothing unread, on a board in a state with this property.
  abbrev pub EndsWell : {A : Type 0} → Result A × Link S → A → (S → Type 0) → Type 0
  EndsWell x a Said = (s' : S) × Ended x (ok a) [] s' × Said s'

  -- What `exec_` returns for this output.
  abbrev pub text_of : Bytes → Bytes
  text_of out = decode (without_mark out)

  finish-blank : (out : Bytes) → decode [] ≡ [] → finish decode out [] ≡ ok (text_of out)
  unfolding finish strip lstrip rstrip
  finish-blank out blank = ap (λ (e : Bytes). raised (strip e) (text_of out)) blank

  pub next-well :
      {A B : Type 0} (x : Result A × Link S) (f : A → Op S B) (a : A) {b : B} {s : S}
      {Said : S → Type 0}
      → Ended x (ok a) [] s
      → ((l : Link S) → Unread l [] → l.board ≡ s → EndsWell (f a l) b Said)
      → EndsWell (next x f) b Said
  unfolding next
  next-well (ok a', l) f a {b} {s} {Said} (e, u, at) rest =
      subst (λ a''. EndsWell (f a'' l) b Said) (sym (cc e)) (rest l u at)
  next-well (err e', l) f a (e, u, at) rest = cc e

  -- A command that the board runs, and the operation behind it.
  pub exec-Does :
      {B : Type 0} (c : Command) (l : Link S) (f : Bytes → Op S B) {Said : Bytes → S → Type 0}
      {b : B} {Goal : S → Type 0}
      → decode [] ≡ []
      → Unread l []
      → Does c l.board Said
      → ((out : Bytes) (l' : Link S)
          → Unread l' []
          → Said out l'.board
          → EndsWell (f (text_of out) l') b Goal)
      → EndsWell (next (exec respond decode c l) f) b Goal
  exec-Does c l f {Said} blank u (out, s', answers, whole, fits, said) rest =
      let fits' : length (out ++ 4 ∷ ([] ++ 4 ∷ 62 ∷ [])) ≤ max_stream_buf =
        omega (arith, length-append out (4 ∷ 4 ∷ 62 ∷ [])) in
      let (r, u', at) = exec-finish respond decode c l out [] s' u answers whole tt fits' in
      next-well (exec respond decode c l) f (text_of out) (r ∙ finish-blank out blank, u', at)
        λ l' u'' at'. rest out l' u'' (subst (Said out) (sym at') said)
