-- ===== src/Capture/Pattern.antt =====
-- The search of the monitor's window: it looks only where a hit could be new, and misses none.
use ironharness.Prelude.{
  ℕ, ◌≡◌, ◌≢◌, refl, sym, ◌∙◌, Bool, true, false, Option, none, some, List, [], ◌∷◌, ◌++◌, Bytes,
  leb, if_ind,
}
use ironharness.Prelude.Search.{contains, contains-from, contains-nil}
use ironharness.Capture.{
  Round, Window, Reason, by_pattern, Ended, stopped, failed, running, is_quiet, seen, take_in,
  capture, monitor_window,
}

-- Whether a text holds the pattern, if there is one.
abbrev pub held : Option Bytes → Bytes → Bool
held none buf = false
held (some needle) buf = contains needle buf

abbrev pub is_pattern : Reason → Bool
is_pattern by_pattern = true
is_pattern _ = false

abbrev pub Searched : Option Bytes → Ended → Type 0
Searched needle (stopped why buf) = is_pattern why ≡ held needle buf
Searched needle failed = Unit {0}
Searched needle (running buf) = held needle buf ≡ false

seen-held :
    (needle : Option Bytes) (buf chunk : Bytes)
    → held needle buf ≡ false
    → seen needle buf chunk ≡ held needle (buf ++ chunk)
unfolding seen
seen-held none buf chunk clean = refl
seen-held (some needle) buf chunk clean = contains-from needle buf chunk clean

take_in-Searched :
    (needle : Option Bytes) (buf : Bytes) (last_data : ℕ) (r : Round) (chunk : Option Bytes)
    (later : Bytes → ℕ → Ended)
    → held needle buf ≡ false
    → ((buf' : Bytes) (t : ℕ) → held needle buf' ≡ false → Searched needle (later buf' t))
    → Searched needle (take_in needle buf last_data r chunk later)
unfolding take_in
take_in-Searched needle buf last_data r none later clean rest = tt
take_in-Searched needle buf last_data r (some []) later clean rest = rest buf last_data clean
take_in-Searched needle buf last_data r (some (b ∷ bs)) later clean rest =
    let same = seen-held needle buf (b ∷ bs) clean in
    if_ind (Searched needle) (seen needle buf (b ∷ bs)) (λ hit. sym hit ∙ same)
      (λ miss. rest (buf ++ b ∷ bs) r.read_at (sym same ∙ miss))

capture-Searched :
    (w : Window) (rounds : List Round) (buf : Bytes) (last_data : ℕ)
    → held w.needle buf ≡ false
    → Searched w.needle (capture w rounds buf last_data)
unfolding capture
capture-Searched w [] buf last_data clean = clean
capture-Searched w (r ∷ rounds) buf last_data clean =
    if_ind P (leb w.max_bytes _) (λ _. sym clean)
      λ _.
        if_ind P (leb w.deadline r.now) (λ _. sym clean)
          λ _.
            if_ind P (is_quiet w.quiet r.now last_data) (λ _. sym clean)
              λ _.
                take_in-Searched w.needle buf last_data r _ (capture w rounds) clean
                  (capture-Searched w rounds)
  where
    P : Ended → Type 0
    P = Searched w.needle

-- A monitor's window that stops does so for its pattern exactly if the whole capture holds it, and
-- one that still runs has not captured it, whatever the rounds are; the pattern, if there is one, is
-- not empty.
pub monitor_window-Searched :
    (max_bytes max_seconds : ℕ) (quiet_seconds : Option ℕ) (stop_pattern : Option Bytes) (start : ℕ)
    (rounds : List Round)
    → stop_pattern ≢ some []
    → Searched stop_pattern
        (monitor_window max_bytes max_seconds quiet_seconds stop_pattern start rounds)
unfolding monitor_window
monitor_window-Searched m s q stop_pattern start rounds some_pattern =
    capture-Searched _ rounds [] start (unheld stop_pattern some_pattern)
  where
    unheld : (needle : Option Bytes) → needle ≢ some [] → held needle [] ≡ false
    unheld none ne = refl
    unheld (some []) ne = absurd (ne refl)
    unheld (some (b ∷ bs)) ne = contains-nil b bs
