-- ===== src/Runner/Backlog.antt =====
-- What the pump of src/ironbench/runner_common.py keeps of what was written.
use ironharness.Prelude.{
  ◌+◌, ◌≤◌, ◌≡◌, refl, sym, ap, ap₂, ◌∙◌, Bool, true, false, ◌||◌, ◌&&◌, not, Option, none, some,
  List, [], ◌∷◌, ◌++◌, Bytes, length, ltb, if◌then◌else◌, if_ind, arith, append_assoc, ltb→ge,
}
use ironharness.Runner.Writer.{
  Writer, new_writer, Event, write, take_next, delivered, pipe_died, drained, close,
  max_pending_bytes, put, accepts, pop, deliver, fail, settle, step, accept, run, total, in_hand,
}

-- The backlog is counted and bounded; and as long as the pipe lives, every text that was accepted is
-- in the pipe, in the pump's hands or in the queue, in its order.
pub record Kept (w : Writer) (texts : List Bytes) : Type 0 where
  pub counted : w.pending ≡ total w.queue
  pub bounded : w.pending ≤ max_pending_bytes
  pub in_order : w.is_broken ≡ false → w.stdin ++ (in_hand w.taken ++ w.queue) ≡ texts

total-append : (xs ys : List Bytes) → total (xs ++ ys) ≡ total xs + total ys
unfolding total
total-append [] ys = omega arith
total-append (x ∷ xs) ys = omega (arith, total-append xs ys)

by_tests :
    (refused full : Bool) (w w₁ w₂ : Writer) (texts texts' : List Bytes)
    → Kept w texts
    → Kept w₁ texts
    → (full ≡ false → Kept w₂ texts')
    → Kept
        (if refused then w else if full then w₁ else w₂)
        (if not refused && not full then texts' else texts)
by_tests true full w w₁ w₂ texts texts' kept kept₁ kept₂ = kept
by_tests false true w w₁ w₂ texts texts' kept kept₁ kept₂ = kept₁
by_tests false false w w₁ w₂ texts texts' kept kept₁ kept₂ = kept₂ refl

put-Kept :
    (text : Bytes) (w : Writer) (texts : List Bytes)
    → Kept w texts
    → Kept (put text w) (if accepts text w then texts ++ text ∷ [] else texts)
unfolding put accepts total
put-Kept text w texts kept =
    by_tests (w.is_broken || w.is_overflow) (ltb max_pending_bytes (w.pending + length text)) w _ _
      texts (texts ++ text ∷ []) kept
      (record { counted = kept.counted; bounded = kept.bounded; in_order = kept.in_order })
      λ fits. record {
        counted = omega (arith, kept.counted, total-append w.queue (text ∷ []));
        bounded = ltb→ge max_pending_bytes (w.pending + length text) fits;
        in_order = λ alive.
            ap (λ (q : List Bytes). w.stdin ++ q)
              (sym (append_assoc (in_hand w.taken) w.queue (text ∷ [])))
            ∙ (sym (append_assoc w.stdin (in_hand w.taken ++ w.queue) (text ∷ []))
                ∙ ap (λ (q : List Bytes). q ++ text ∷ []) (kept.in_order alive));
      }

pop-Kept :
    (o : Option Bytes) (q : List Bytes) (w : Writer) (texts : List Bytes)
    → w.taken ≡ o
    → w.queue ≡ q
    → Kept w texts
    → Kept (pop o q w) texts
unfolding pop total
pop-Kept (some text) q w texts et eq kept = kept
pop-Kept none [] w texts et eq kept = kept
pop-Kept none (text ∷ more) w texts et eq kept = record {
  counted = omega (arith, kept.counted, ap total eq);
  bounded = omega (arith, kept.bounded);
  in_order = λ alive.
      ap (λ (q : List Bytes). w.stdin ++ q)
        (sym (ap₂ (λ (o : Option Bytes) (q : List Bytes). in_hand o ++ q) et eq))
      ∙ kept.in_order alive;
}

deliver-Kept :
    (o : Option Bytes) (w : Writer) (texts : List Bytes)
    → w.taken ≡ o
    → Kept w texts
    → Kept (deliver o w) texts
unfolding deliver
deliver-Kept none w texts et kept = kept
deliver-Kept (some text) w texts et kept = record {
  counted = kept.counted;
  bounded = kept.bounded;
  in_order = λ alive.
      append_assoc w.stdin (text ∷ []) w.queue
      ∙ (ap (λ (o : Option Bytes). w.stdin ++ (in_hand o ++ w.queue)) (sym et)
          ∙ kept.in_order alive);
}

fail-Kept :
    (o : Option Bytes) (w : Writer) (texts : List Bytes) → Kept w texts → Kept (fail o w) texts
unfolding fail total
fail-Kept none w texts kept = kept
fail-Kept (some text) w texts kept = record {
  counted = refl;
  bounded = omega arith;
  in_order = λ alive. cc alive;
}

settle-Kept :
    (o : Option Bytes) (q : List Bytes) (w : Writer) (texts : List Bytes)
    → Kept w texts
    → Kept (settle o q w) texts
unfolding settle
settle-Kept none [] w texts kept = record {
  counted = kept.counted;
  bounded = kept.bounded;
  in_order = kept.in_order;
}
settle-Kept none (text ∷ more) w texts kept = kept
settle-Kept (some text) q w texts kept = kept

step-Kept :
    (e : Event) (w : Writer) (texts : List Bytes)
    → Kept w texts
    → Kept (step e w) (accept e w texts)
unfolding step accept
step-Kept (write text) w texts kept = put-Kept text w texts kept
step-Kept take_next w texts kept =
    if_ind (λ x. Kept x texts) w.is_done (λ _. kept)
      (λ _. pop-Kept w.taken w.queue w texts refl refl kept)
step-Kept delivered w texts kept = deliver-Kept w.taken w texts refl kept
step-Kept pipe_died w texts kept = fail-Kept w.taken w texts kept
step-Kept drained w texts kept =
    if_ind (λ x. Kept x texts) w.is_done (λ _. kept) (λ _. settle-Kept w.taken w.queue w texts kept)
step-Kept close w texts kept = record {
  counted = kept.counted;
  bounded = kept.bounded;
  in_order = kept.in_order;
}

run-steps :
    (es : List Event) (w : Writer) (texts : List Bytes)
    → Kept w texts
    → Kept (run es w texts).0 (run es w texts).1
unfolding run
run-steps [] w texts kept = kept
run-steps (e ∷ es) w texts kept =
    run-steps es (step e w) (accept e w texts) (step-Kept e w texts kept)

-- In every interleaving of writes, of the pump's work, of deaths of the pipe and of close: the
-- backlog is counted and at most MAX_PENDING_BYTES, and as long as the pipe lives every text that
-- write accepted is in the pipe, in the pump's hands or in the queue, each once and in order.
pub run-Kept : (es : List Event) → Kept (run es new_writer []).0 (run es new_writer []).1
unfolding total
run-Kept es =
    run-steps es new_writer []
      (record { counted = refl; bounded = omega arith; in_order = λ alive. refl })
