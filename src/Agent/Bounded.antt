-- ===== src/Agent/Bounded.antt =====
-- How much an attempt asks of the model and of the runner.
use ironharness.Prelude.{
  ℕ, zero, suc, ◌+◌, ◌*◌, ◌≤◌, ◌≡◌, refl, Option, none, some, List, Bytes, if_ind, arith,
}
use ironharness.Agent.{
  TaskResult, Reply, answer, http_error, other_error, Message, Progress, Outcome, ended, aborted,
  Asked, answered, gave_up, config_error, is_permanent, is_infra, or_retry, ask, judged, taken,
  asked, loop,
}
use ironharness.Agent.Code.{extract_code}

or_retry_cost :
    {W : Type 0} (cost : W → ℕ) (k : ℕ) (r : Reply × W) (again : Bytes → W → Asked × W)
    → cost r.1 ≤ k
    → ((text : Bytes) (w : W) → cost w ≤ cost r.1 → cost (again text w).1 ≤ k)
    → cost (or_retry r again).1 ≤ k
unfolding or_retry
or_retry_cost cost k (answer text, w) again le rest = le
or_retry_cost {W = W} cost k (http_error code text, w) again le rest =
    if_ind (λ (x : Asked × W). cost x.1 ≤ k) (is_permanent code) (λ _. le)
      (λ _. rest text w (omega arith))
or_retry_cost cost k (other_error text, w) again le rest = rest text w (omega arith)

-- A cost of at most k, and at most n rounds if the attempt was not aborted.
abbrev pub Spends : {W : Type 0} → (W → ℕ) → ℕ → ℕ → Outcome × W → Type 0
Spends cost k n (ended p, w) = (cost w ≤ k) × (p.iterations ≤ n)
Spends cost k n (aborted code, w) = cost w ≤ k

judged-Spends :
    {W : Type 0} (cost : W → ℕ) (k n : ℕ) (response : Bytes) (r : TaskResult × W) (p : Progress)
    (again : Progress → W → Outcome × W)
    → cost r.1 ≤ k
    → p.iterations ≤ n
    → ((p' : Progress) → p'.iterations ≡ p.iterations → Spends cost k n (again p' r.1))
    → Spends cost k n (judged response r p again)
unfolding judged
judged-Spends {W = W} cost k n response (r, w) p again le le' rest =
    if_ind (Spends cost k n) r.passed (λ _. (le, le'))
      (λ _. if_ind (Spends cost k n) (is_infra r.error_kind) (λ _. (le, le')) (λ _. rest _ refl))

module _ {W : Type 0} (llm : List Message → W → Reply × W) (runner : Bytes → W → TaskResult × W)
    (note : ℕ → W → W) (cost : W → ℕ) (a b : ℕ)
    (asks : (ms : List Message) (w : W) → cost (llm ms w).1 ≤ cost w + a)
    (runs : (code : Bytes) (w : W) → cost (runner code w).1 ≤ cost w + b)
    (free : (n : ℕ) (w : W) → cost (note n w) ≤ cost w) where
  ask_cost :
      (more : ℕ) (ms : List Message) (w : W)
      → cost (ask llm runner note more ms w).1 ≤ cost w + (more + 1) * a
  unfolding ask
  ask_cost zero ms w =
      or_retry_cost cost _ (llm ms w) _ (omega (arith, asks ms w))
        (λ text w' le. omega (arith, le, asks ms w))
  ask_cost (suc more) ms w =
      or_retry_cost cost _ (llm ms w) _ (omega (arith, asks ms w))
        (λ text w' le. omega (arith, le, asks ms w, ask_cost more ms w'))

  taken-Spends :
      (k n : ℕ) (response : Bytes) (code : Option Bytes) (p : Progress) (w : W)
      (again : Progress → W → Outcome × W)
      → cost w + b ≤ k
      → p.iterations ≤ n
      → ((p' : Progress) (w' : W)
          → p'.iterations ≡ p.iterations
          → cost w' ≤ cost w + b
          → Spends cost k n (again p' w'))
      → Spends cost k n (taken llm runner note response code p w again)
  unfolding taken
  taken-Spends k n response none p w again le le' rest = rest _ w refl (omega arith)
  taken-Spends k n response (some code) p w again le le' rest =
      judged-Spends cost k n response (runner code (note p.iterations w)) p again
        (omega (arith, spent, le)) le' (λ p' e. rest p' _ e spent)
    where
      spent : cost (runner code (note p.iterations w)).1 ≤ cost w + b
      spent = omega (arith, runs code (note p.iterations w), free p.iterations w)

  asked-Spends :
      (k n : ℕ) (o : Asked × W) (p : Progress) (again : Progress → W → Outcome × W)
      → cost o.1 + b ≤ k
      → p.iterations ≤ n
      → ((p' : Progress) (w' : W)
          → p'.iterations ≡ p.iterations
          → cost w' ≤ cost o.1 + b
          → Spends cost k n (again p' w'))
      → Spends cost k n (asked llm runner note o p again)
  unfolding asked
  asked-Spends k n (answered response, w) p again le le' rest =
      taken-Spends k n response (extract_code response) p w again le le' rest
  asked-Spends k n (gave_up text, w) p again le le' rest = (omega (arith, le), le')
  asked-Spends k n (config_error code, w) p again le le' rest = omega (arith, le)

  pub loop-Spends :
      (left k n : ℕ) (p : Progress) (w : W)
      → cost w + left * (3 * a + b) ≤ k
      → p.iterations + left ≤ n
      → Spends cost k n (loop llm runner note left p w)
  unfolding loop
  loop-Spends zero k n p w le le' = (omega (arith, le), omega (arith, le'))
  loop-Spends (suc left) k n p w le le' =
      asked-Spends k n (ask llm runner note 2 p.messages w) _ (loop llm runner note left)
        (omega (arith, le, ask_cost 2 p.messages w)) (omega (arith, le'))
        (λ p' w' e less.
          loop-Spends left k n p' w' (omega (arith, le, less, ask_cost 2 p.messages w))
            (omega (arith, e, le')))
