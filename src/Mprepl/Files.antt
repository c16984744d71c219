-- ===== src/Mprepl/Files.antt =====
-- put_file and get_file of src/io_core/mprepl.py: a file put on a board can be got back.
use ironharness.Prelude.{
  ℕ, Bool, true, ◌≤◌, ◌<◌, ◌≡◌, refl, ap, ◌∙◌, Option, some, [], ◌∷◌, ◌++◌, Bytes, length, take,
  drop, arith, take-append-drop, length-drop,
}
use ironharness.Prelude.Hex.{AllBytes, Ascii, take-AllBytes, drop-AllBytes}
use ironharness.Mprepl.{
  Arrivals, Result, ok, err, Link, Op, Command, import_binascii, open_write, open_read, next, sent,
  send, enter, exit, on_error, best_effort_close, pieces, opened, transfer, put_file, get_file,
}
use ironharness.Mprepl.Stream.{joined}
use ironharness.Mprepl.Exec.{Unread, Ended}
use ironharness.Mprepl.Device.{
  Board, Handle, shut, in_raw, out_of_raw, EndsWell, exec-Does, next-well,
}
use ironharness.Mprepl.Loops.{Pieces, write_all-well, read_all-well}

joined-pieces :
    (chunk : ℕ) (fuel text : Bytes)
    → 1 ≤ chunk
    → length text ≤ length fuel
    → joined (pieces chunk fuel text) ≡ text
unfolding pieces
joined-pieces chunk fuel [] le enough = refl
joined-pieces chunk [] (b ∷ bs) le enough = absurd (omega arith)
joined-pieces chunk (_ ∷ fuel) (b ∷ bs) le enough =
    ap (◌++◌ (take chunk (b ∷ bs))) (
      joined-pieces chunk fuel (drop chunk (b ∷ bs)) le (omega (arith, length-drop chunk (b ∷ bs))))
    ∙ take-append-drop chunk (b ∷ bs)

pieces-Pieces : (chunk : ℕ) (fuel text : Bytes) → AllBytes text → Pieces (pieces chunk fuel text)
unfolding pieces
pieces-Pieces chunk fuel [] h = tt
pieces-Pieces chunk [] (b ∷ bs) h = tt
pieces-Pieces chunk (_ ∷ fuel) (b ∷ bs) h = (
  take-AllBytes chunk (b ∷ bs) h,
  pieces-Pieces chunk fuel (drop chunk (b ∷ bs)) (drop-AllBytes chunk (b ∷ bs) h),
)

module _ {S : Type 0} (respond : Bytes → S → Option (S × Arrivals)) (decode : Bytes → Bytes) where
  on_error-well :
      {A : Type 0} (clean : Link S → Link S) (x : Result A × Link S) {a : A} {Said : S → Type 0}
      → EndsWell respond decode x a Said
      → EndsWell respond decode (on_error clean x) a Said
  unfolding on_error
  on_error-well clean (ok a', l) h = h
  on_error-well clean (err e, l) (s, (e', u, at), said) = cc e'

  module _ {path size : Bytes} {chunk : ℕ} (board : Board respond decode path size chunk) where
    exit-view :
        (l : Link S) (imported : Bool) (h : Handle) (file : Option Bytes)
        → board.view l.board ≡ in_raw imported h file
        → board.view (exit respond decode l).board ≡ out_of_raw h file
    unfolding exit send
    exit-view l imported h file e =
        let (s, arrivals, answers, left) = board.leaves l.board imported h file e in
        ap (λ o. board.view (sent o l).1.board) answers ∙ left

    -- A transfer's result and what is left behind it: the raw mode left, no file open, and the file.
    abbrev pub Transferred : {A : Type 0} → Result A × Link S → A → Bytes → Type 0
    Transferred (r, l) a text = (r ≡ ok a) × (board.view l.board ≡ out_of_raw shut (some text))

    finished :
        {A : Type 0} (x : Result A × Link S) {a : A} {text : Bytes}
        → EndsWell respond decode x a (λ s. board.view s ≡ in_raw true shut (some text))
        → Transferred (next x λ a' l. (ok a', exit respond decode l)) a text
    unfolding next
    finished (ok a', l) {text = text} (s, (e, u, at), said) =
        (e, exit-view l true shut (some text) (ap board.view at ∙ said))
    finished (err e, l) (s, (e', u, at), said) = cc e'

    entered :
        {A : Type 0} (x : Result (Unit {0}) × Link S) (f : Unit {0} → Op S A) {s : S} {a : A}
        {text : Bytes}
        → Ended x (ok tt) [] s
        → ((l1 : Link S) → Unread l1 [] → l1.board ≡ s → Transferred (f tt l1) a text)
        → Transferred (next x f) a text
    unfolding next
    entered (ok tt, l) f (e, u, at) rest = rest l u at
    entered (err e', l) f (e, u, at) rest = cc e

    transfer-well :
        {A : Type 0} (retries : ℕ) (c : Command) (body : Op S A) (l : Link S) (s : S) {a : A}
        {text : Bytes}
        → Ended (enter respond decode retries l) (ok tt) [] s
        → ((l1 : Link S)
            → Unread l1 []
            → l1.board ≡ s
            → EndsWell respond decode
                (opened respond decode c body l1)
                a
                (λ s'. board.view s' ≡ in_raw true shut (some text)))
        → Transferred (transfer respond decode retries c body l) a text
    unfolding transfer
    transfer-well retries c body l s ended opening =
        entered (enter respond decode retries l) _ ended
          λ l1 u at. finished (opened respond decode c body l1) (opening l1 u at)

    module _ (ascii : (text : Bytes) → Ascii text → decode text ≡ text)
        (some_chunk : 1 ≤ chunk) where
      put_file-Transferred :
          (retries : ℕ) (text : Bytes) (l : Link S) (s : S) (imported : Bool) (file : Option Bytes)
          → AllBytes text
          → Ended (enter respond decode retries l) (ok tt) [] s
          → board.view s ≡ in_raw imported shut file
          → Transferred (put_file respond decode chunk retries text path l) (length text) text
      unfolding put_file opened
      put_file-Transferred retries text l s imported file bytes ended raw =
          transfer-well retries (open_write path) _ l s ended λ l1 u1 at.
            on_error-well (exit respond decode) _ (
              exec-Does respond decode import_binascii l1 _ (ascii [] tt) u1
                (board.imports l1.board imported shut file (ap board.view at ∙ raw))
                λ _ l2 u2 ready.
                  exec-Does respond decode (open_write path) l2 _ (ascii [] tt) u2
                    (board.opens_to_write l2.board true file ready)
                    λ _ l3 u3 empty. on_error-well (best_effort_close respond decode) _ (
                      let (s', written, said) =
                        write_all-well respond decode board ascii (pieces chunk text text) l3 []
                          (pieces-Pieces chunk text text bytes) u3 empty in
                      next-well respond decode _ _ tt written λ l4 u4 at4. (
                        s',
                        (refl, u4, at4),
                        said
                            ∙ ap (λ t. in_raw true shut (some t))
                                (joined-pieces chunk text text some_chunk (omega arith)),
                      )))

      get_file-Transferred :
          (retries fuel : ℕ) (text : Bytes) (l : Link S) (s : S) (imported : Bool)
          → AllBytes text
          → length text < fuel
          → Ended (enter respond decode retries l) (ok tt) [] s
          → board.view s ≡ in_raw imported shut (some text)
          → Transferred (get_file respond decode size retries fuel path l) text text
      unfolding get_file opened
      get_file-Transferred retries fuel text l s imported bytes enough ended raw =
          transfer-well retries (open_read path) _ l s ended λ l1 u1 at.
            on_error-well (exit respond decode) _ (
              exec-Does respond decode import_binascii l1 _ (ascii [] tt) u1
                (board.imports l1.board imported shut (some text) (ap board.view at ∙ raw))
                λ _ l2 u2 ready.
                  exec-Does respond decode (open_read path) l2 _ (ascii [] tt) u2
                    (board.opens_to_read l2.board true text ready)
                    λ _ l3 u3 start. on_error-well (best_effort_close respond decode) _ (
                      read_all-well respond decode board ascii fuel [] l3 0 text some_chunk bytes u3
                        start enough))

      -- What `put_file` has put on the board, `get_file` returns, for every cut of the board's
      -- answers into chunks and every chunk size of the transfer; put_file returns the length, and
      -- behind both the raw mode is left, no file is open, and the file holds the text. This is so
      -- if both times `enter` reaches the raw mode with nothing unread, the first time with no file
      -- open, the second time with the file, and what is open, as they were outside the raw mode.
      -- One read more than the text has bytes is fuel enough.
      pub get_file-put_file :
          (retries fuel : ℕ) (text : Bytes) (l l' : Link S) (s s' : S) (imported imported' : Bool)
          (file : Option Bytes)
          → AllBytes text
          → length text < fuel
          → Ended (enter respond decode retries l) (ok tt) [] s
          → board.view s ≡ in_raw imported shut file
          → l'.board ≡ (put_file respond decode chunk retries text path l).1.board
          → Ended (enter respond decode retries l') (ok tt) [] s'
          → ((h : Handle) (file' : Option Bytes)
              → board.view l'.board ≡ out_of_raw h file'
              → board.view s' ≡ in_raw imported' h file')
          → ((put_file respond decode chunk retries text path l).0 ≡ ok (length text))
            × ((get_file respond decode size retries fuel path l').0 ≡ ok text)
            × (board.view (get_file respond decode size retries fuel path l').1.board
                ≡ out_of_raw shut (some text))
      get_file-put_file retries fuel text l l' s s' imported imported' file bytes enough ended raw
            left ended' enters =
          let (result, put) = put_file-Transferred retries text l s imported file bytes ended raw in
          let (back, got) =
            get_file-Transferred retries fuel text l' s' imported' bytes enough ended'
              (enters shut (some text) (ap board.view left ∙ put)) in
          (result, back, got)
