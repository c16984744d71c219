-- ===== src/Agent/Campaign.antt =====
-- How much a campaign asks of the model and of the runner.
use ironharness.Prelude.{
  ℕ, zero, suc, ◌+◌, ◌*◌, ◌≤◌, ◌≡◌, refl, Bool, List, [], ◌∷◌, Bytes, length, arith,
}
use ironharness.Agent.{TaskResult, Reply, Message, Outcome, ended, aborted}
use ironharness.Agent.Attempt.{
  AttemptResult, Entry, iteration, attempt_result, Campaign, results, stopped_by, verdict,
  and_result, add_verdict, solve_attempt, attempts_from, report_all, reported, solve, begin,
  final_error, classify,
}
use ironharness.Agent.Bounded.{Spends, loop-Spends}

abbrev pub AllWithin : ℕ → List AttemptResult → Type 0
AllWithin n [] = Unit {0}
AllWithin n (r ∷ rs) = (r.iterations ≤ n) × AllWithin n rs

-- A campaign's cost, and of one that was not stopped the number of its results and their rounds.
abbrev pub CampaignSpends : {W : Type 0} → (W → ℕ) → ℕ → ℕ → ℕ → Campaign × W → Type 0
CampaignSpends cost k m n (results rs, w) = (cost w ≤ k) × ((length rs ≡ m) × AllWithin n rs)
CampaignSpends cost k m n (stopped_by code, w) = cost w ≤ k

module _ {W : Type 0} (cost : W → ℕ) (k n : ℕ) where
  add_verdict-CampaignSpends :
      (m t attempt k' : ℕ) (task : Bytes) (o : Outcome × W) (rest : W → Campaign × W)
      → k' ≤ k
      → Spends cost k' n o
      → ((w : W) → cost w ≤ k' → CampaignSpends cost k m n (rest w))
      → CampaignSpends cost k (suc m) n (add_verdict (verdict task t attempt o) rest)
  unfolding add_verdict verdict
  add_verdict-CampaignSpends m t attempt k' task (aborted code, w) rest le spends later =
      omega (arith, le, spends)
  add_verdict-CampaignSpends m t attempt k' task (ended p, w) rest le spends later =
      and_one (rest w) (later w spends.0)
    where
      r : AttemptResult
      r = record {
        task = task;
        attempt = attempt;
        solved = p.solved;
        iterations = p.iterations;
        error = final_error t p;
        error_kind = classify p;
      }

      and_one :
          (c : Campaign × W)
          → CampaignSpends cost k m n c
          → CampaignSpends cost k (suc m) n (and_result r c)
      and_one (results rs, w') (x, (y, z)) = (x, (omega (arith, y), (spends.1, z)))
      and_one (stopped_by code, w') x = x

module _ {W : Type 0} (llm : List Message → W → Reply × W) (runner : Bytes → W → TaskResult × W)
    (journal : Entry → W → W) (cost : W → ℕ) (a b : ℕ)
    (asks : (ms : List Message) (w : W) → cost (llm ms w).1 ≤ cost w + a)
    (runs : (code : Bytes) (w : W) → cost (runner code w).1 ≤ cost w + b)
    (free : (e : Entry) (w : W) → cost (journal e w) ≤ cost w) (task : Bytes)
    (messages : List Message) (max : ℕ) where
  attempts_from-CampaignSpends :
      (m n k : ℕ) (w : W)
      → cost w + m * (max * (3 * a + b)) ≤ k
      → CampaignSpends cost k m max (attempts_from llm runner journal task messages max n m w)
  unfolding attempts_from solve_attempt begin
  attempts_from-CampaignSpends zero n k w le = (omega (arith, le), (refl, tt))
  attempts_from-CampaignSpends (suc m) n k w le =
      add_verdict-CampaignSpends cost k max m max n (cost w + max * (3 * a + b)) task _ _
        (omega (arith, le))
        (loop-Spends llm runner (λ i. journal (iteration task n i)) cost a b asks runs
          (λ i. free (iteration task n i)) max _ max (begin messages) w (omega arith) (omega arith))
        (λ w' le'. attempts_from-CampaignSpends m (n + 1) k w' (omega (arith, le, le')))

report_all-cost :
    {W : Type 0} (llm : List Message → W → Reply × W) (runner : Bytes → W → TaskResult × W)
    (journal : Entry → W → W) (cost : W → ℕ)
    (free : (e : Entry) (w : W) → cost (journal e w) ≤ cost w) (task : Bytes)
    (messages : List Message) (max : ℕ) (model : Bytes) (notes : Bool) (rs : List AttemptResult)
    (w : W)
    → cost (report_all llm runner journal task messages max model notes rs w) ≤ cost w
unfolding report_all
report_all-cost llm runner journal cost free task messages max model notes [] w = omega arith
report_all-cost llm runner journal cost free task messages max model notes (r ∷ rs) w =
    let e = attempt_result r model notes in
    omega (
      arith,
      free e w,
      report_all-cost llm runner journal cost free task messages max model notes rs (journal e w),
    )

reported-CampaignSpends :
    {W : Type 0} (llm : List Message → W → Reply × W) (runner : Bytes → W → TaskResult × W)
    (journal : Entry → W → W) (cost : W → ℕ)
    (free : (e : Entry) (w : W) → cost (journal e w) ≤ cost w) (task : Bytes)
    (messages : List Message) (max k m : ℕ) (model : Bytes) (notes : Bool) (c : Campaign × W)
    → CampaignSpends cost k m max c
    → CampaignSpends cost k m max (reported llm runner journal task messages max model notes c)
unfolding reported
reported-CampaignSpends llm runner journal cost free task messages max k m model notes
      (results rs, w) (x, y) =
    (
      omega (
        arith,
        x,
        report_all-cost llm runner journal cost free task messages max model notes rs w,
      ),
      y,
    )
reported-CampaignSpends llm runner journal cost free task messages max k m model notes
      (stopped_by code, w) x =
    x

-- If every call of the model costs at most a, every run at most b and the journal nothing, then a
-- campaign of some attempts with at most max rounds each costs at most attempts * max * (3a + b);
-- one that no status stopped has as many results as attempts, each with at most max rounds.
pub solve-CampaignSpends :
    {W : Type 0} (llm : List Message → W → Reply × W) (runner : Bytes → W → TaskResult × W)
    (journal : Entry → W → W) (cost : W → ℕ) (a b : ℕ) (task : Bytes) (messages : List Message)
    (max : ℕ) (model : Bytes) (notes : Bool) (attempts : ℕ) (w : W)
    → ((ms : List Message) (w : W) → cost (llm ms w).1 ≤ cost w + a)
    → ((code : Bytes) (w : W) → cost (runner code w).1 ≤ cost w + b)
    → ((e : Entry) (w : W) → cost (journal e w) ≤ cost w)
    → CampaignSpends cost
        (cost w + attempts * (max * (3 * a + b)))
        attempts
        max
        (solve llm runner journal task messages max model notes attempts w)
unfolding solve
solve-CampaignSpends llm runner journal cost a b task messages max model notes m w asks runs free =
    reported-CampaignSpends llm runner journal cost free task messages max _ m model notes
      (attempts_from llm runner journal task messages max 1 m w)
      (attempts_from-CampaignSpends llm runner journal cost a b asks runs free task messages max m 1
        _ w (omega arith))
