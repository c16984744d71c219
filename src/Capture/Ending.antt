-- ===== src/Capture/Ending.antt =====
-- What a monitor's window has captured, and that it ends.
use ironharness.Prelude.{
  ℕ, zero, suc, ◌+◌, ◌-◌, ◌≤◌, ◌<◌, ◌≡◌, refl, subst, false, Option, none, some, List, [], ◌∷◌,
  ◌++◌, Bytes, length, leb, if_ind, arith, leb→le, leb→gt, some_inj, length-append,
}
use ironharness.Capture.{
  Round, Window, by_max_bytes, Ended, stopped, failed, running, is_quiet, asked, received, seen,
  take_in, capture, monitor_window,
}

-- A port reads no more than it is asked for.
abbrev pub Sized : List Round → Type 0
Sized [] = Unit {0}
Sized (r ∷ rounds) =
    ((size : ℕ) (chunk : Bytes) → r.read size ≡ some chunk → length chunk ≤ size) × Sized rounds

-- A round at or past the deadline comes.
pub data Reaches : ℕ → List Round → Type 0 where
  here :
      {deadline : ℕ} {r : Round} {rounds : List Round}
      → deadline ≤ r.now
      → Reaches deadline (r ∷ rounds)
  there :
      {deadline : ℕ} {r : Round} {rounds : List Round}
      → Reaches deadline rounds
      → Reaches deadline (r ∷ rounds)

-- The window has stopped, with no more than it may capture, and with exactly that if it stopped for
-- that; or a read has raised.
abbrev pub Ends : ℕ → Ended → Type 0
Ends limit (stopped why buf) = (length buf ≤ limit) × (why ≡ by_max_bytes → length buf ≡ limit)
Ends limit failed = Unit {0}
Ends limit (running buf) = ⊥

still_ahead :
    (deadline : ℕ) (r : Round) (rounds : List Round)
    → leb deadline r.now ≡ false
    → Reaches deadline (r ∷ rounds)
    → Reaches deadline rounds
still_ahead deadline r rounds early (here le) = absurd (omega (arith, leb→gt deadline r.now early))
still_ahead deadline r rounds early (there later) = later

asked_fits :
    (waiting : Option ℕ) (remaining size : ℕ)
    → asked waiting remaining ≡ some size
    → size ≤ remaining
unfolding asked
asked_fits (some zero) remaining size e = cc
asked_fits (some (suc n)) remaining size e = omega (arith, some_inj e)
asked_fits none remaining size e = omega (arith, some_inj e)

received_fits :
    (waiting : Option ℕ) (remaining : ℕ) (r : Round) (chunk : Bytes)
    → ((size : ℕ) (answer : Bytes) → r.read size ≡ some answer → length answer ≤ size)
    → received (asked waiting remaining) r ≡ some chunk
    → length chunk ≤ remaining
unfolding received
received_fits waiting remaining r chunk sized e = by_size (asked waiting remaining) refl e
  where
    by_size :
        (o : Option ℕ)
        → asked waiting remaining ≡ o
        → received o r ≡ some chunk
        → length chunk ≤ remaining
    by_size none ask e' = subst (λ (c : Bytes). length c ≤ remaining) (some_inj e') (omega arith)
    by_size (some size) ask e' =
        omega (arith, asked_fits waiting remaining size ask, sized size chunk e')

take_in-Ends :
    (limit : ℕ) (needle : Option Bytes) (buf : Bytes) (last_data : ℕ) (r : Round)
    (got : Option Bytes) (later : Bytes → ℕ → Ended)
    → length buf < limit
    → ((chunk : Bytes) → got ≡ some chunk → length chunk ≤ limit - length buf)
    → ((buf' : Bytes) (t : ℕ) → length buf' ≤ limit → Ends limit (later buf' t))
    → Ends limit (take_in needle buf last_data r got later)
unfolding take_in
take_in-Ends limit needle buf last_data r none later room fits rest = tt
take_in-Ends limit needle buf last_data r (some []) later room fits rest =
    rest buf last_data (omega arith)
take_in-Ends limit needle buf last_data r (some (b ∷ bs)) later room fits rest =
    if_ind (Ends limit) (seen needle buf (b ∷ bs))
      (λ _. (omega (arith, fits (b ∷ bs) refl, length-append buf (b ∷ bs)), λ e. cc e))
      (λ _.
        rest (buf ++ b ∷ bs) r.read_at
          (omega (arith, fits (b ∷ bs) refl, length-append buf (b ∷ bs))))

capture-Ends :
    (w : Window) (rounds : List Round) (buf : Bytes) (last_data : ℕ)
    → Sized rounds
    → Reaches w.deadline rounds
    → length buf ≤ w.max_bytes
    → Ends w.max_bytes (capture w rounds buf last_data)
unfolding capture
capture-Ends w [] buf last_data sized reaches le = elim reaches [ ]
capture-Ends w (r ∷ rounds) buf last_data (sized, more) reaches le =
    if_ind P (leb w.max_bytes (length buf))
      (λ full. (le, λ _. omega (arith, leb→le w.max_bytes (length buf) full)))
      λ room.
        if_ind P (leb w.deadline r.now) (λ _. (le, λ e. cc e))
          λ early.
            if_ind P (is_quiet w.quiet r.now last_data) (λ _. (le, λ e. cc e))
              λ _.
                take_in-Ends w.max_bytes w.needle buf last_data r _ (capture w rounds)
                  (leb→gt w.max_bytes (length buf) room)
                  (λ chunk. received_fits r.waiting (w.max_bytes - length buf) r chunk sized)
                  (λ buf' t le'.
                    capture-Ends w rounds buf' t more
                      (still_ahead w.deadline r rounds early reaches) le')
  where
    P : Ended → Type 0
    P = Ends w.max_bytes

-- A monitor's window is over at the latest in the first round at or past its end, if the port reads
-- no more than it is asked for: then it has stopped with at most max_bytes captured, and with
-- exactly max_bytes if that was its reason, or a read has raised.
pub monitor_window-Ends :
    (max_bytes max_seconds : ℕ) (quiet_seconds : Option ℕ) (stop_pattern : Option Bytes) (start : ℕ)
    (rounds : List Round)
    → Sized rounds
    → Reaches (start + max_seconds) rounds
    → Ends max_bytes (monitor_window max_bytes max_seconds quiet_seconds stop_pattern start rounds)
unfolding monitor_window
monitor_window-Ends m s q stop_pattern start rounds sized reaches =
    capture-Ends _ rounds [] start sized reaches (omega arith)
