-- ===== src/Agent/Config.antt =====
-- `SolveConfig`, `_pick` and `resolve_llm_config` of src/ironbench/agent.py.
--
-- The type of floats, its test 0 <= t <= 2 and `int` of a text are parameters. An integer is a
-- natural number or one below zero.
use ironharness.Prelude.{
  ℕ, ◌+◌, ◌≤◌, String, ◌≡◌, refl, leb→le, Bool, true, false, not, ◌&&◌, ◌||◌, Option, none, some,
  List, [], ◌∷◌, Bytes, leb, if◌then◌else◌, map,
}
use ironharness.Prelude.Search.{same_bytes}
use ironharness.Prelude.Integer.{ℤ, pos, negsuc}
use ironharness.Prelude.Text.{codes, strip}

pub record SolveConfig (F : Type 0) : Type 0 where
  pub base_url : Bytes
  pub api_key : Bytes
  pub model : Bytes
  pub max_iterations : ℤ
  pub temperature : F
  pub timeout_sec : ℤ
  pub allow_local : Bool
  pub max_tokens : ℤ

-- 1 <= n <= high
unfoldable pub within : ℕ → ℤ → Bool
within high (pos n) = leb 1 n && leb n high
within high (negsuc n) = false

-- The field that __post_init__ refuses with its ValueError.
pub data Refused : Type 0 where
  bad_max_iterations bad_temperature bad_timeout_sec bad_max_tokens : Refused

unfoldable pub post_init : {F : Type 0} → (F → Bool) → SolveConfig F → Option Refused
post_init warm cfg =
    if not (within 1000 cfg.max_iterations)
    then some bad_max_iterations
    else if not (warm cfg.temperature)
    then some bad_temperature
    else if not (within 3600 cfg.timeout_sec)
    then some bad_timeout_sec
    else if not (within 1048576 cfg.max_tokens)
    then some bad_max_tokens
    else none

-- A text that counts as set.
abbrev pub set_text : Option Bytes → Option Bytes
set_text (some (c ∷ cs)) = some (c ∷ cs)
set_text _ = none

abbrev pub first_of : Option Bytes → Option Bytes → Option Bytes
first_of none other = other
first_of (some text) other = some text

-- The environment and the variables of the .env file.
unfoldable pub pick_named :
    (Bytes → Option Bytes) → (Bytes → Option Bytes) → List Bytes → Option Bytes
pick_named environ env [] = none
pick_named environ env (name ∷ names) =
    first_of (set_text (environ name))
      (first_of (set_text (env name)) (pick_named environ env names))

abbrev pub or_default : Bytes → Option Bytes → Bytes
or_default default none = default
or_default default (some text) = text

unfoldable pub pick :
    (Bytes → Option Bytes) → (Bytes → Option Bytes) → Option Bytes → List Bytes → Bytes → Bytes
pick environ env explicit names default =
    or_default default (first_of (set_text explicit) (pick_named environ env names))

abbrev pub ascii_lower : Bytes → Bytes
ascii_lower text = map (λ c. if leb 65 c && leb c 90 then c + 32 else c) text

unfoldable pub truthy : Bytes → Bool
truthy text =
    let word = ascii_lower (strip text) in
    not (
      same_bytes word (codes "0")
      || same_bytes word (codes "false")
      || same_bytes word (codes "no"))

-- A config, or the ValueError of `int` or of __post_init__.
pub data Resolved (F : Type 0) : Type 0 where
  config : SolveConfig F → Resolved F
  no_number : Resolved F
  refused : Refused → Resolved F

unfoldable pub checked : {F : Type 0} → Option Refused → SolveConfig F → Resolved F
checked none cfg = config cfg
checked (some why) cfg = refused why

module _ {F : Type 0} (warm : F → Bool) (int : Bytes → Option ℤ) (default_temperature : F)
    (environ env : Bytes → Option Bytes) where
  unfoldable pub named : String → String → Bytes
  named name default = pick environ env none (codes name ∷ []) (codes default)

  unfoldable pub with_numbers :
      Option Bytes → Option Bytes → Option Bytes → Option ℤ → Option ℤ → Option ℤ → Resolved F
  with_numbers base_url api_key model (some iterations) (some timeout) (some tokens) =
      let cfg : SolveConfig F = record {
        base_url =
            pick environ env base_url (codes "LLM_BASE_URL" ∷ [])
              (codes "http://localhost:1234/v1");
        api_key = pick environ env api_key (codes "LLM_API_KEY" ∷ []) (codes "lm-studio");
        model = pick environ env model (codes "LLM_MODEL" ∷ []) (codes "qwen3.5-9b");
        max_iterations = iterations;
        temperature = default_temperature;
        timeout_sec = timeout;
        allow_local = truthy (named "LLM_ALLOW_LOCAL" "1");
        max_tokens = tokens;
      } in
      checked (post_init warm cfg) cfg
  with_numbers base_url api_key model _ _ _ = no_number

  unfoldable pub resolve_llm_config : Option Bytes → Option Bytes → Option Bytes → Resolved F
  resolve_llm_config base_url api_key model =
      with_numbers base_url api_key model (int (named "LLM_MAX_ITERATIONS" "5"))
        (int (named "LLM_TIMEOUT" "600")) (int (named "LLM_MAX_TOKENS" "8192"))

-- An integer that is at least 1 and at most high.
abbrev pub Between : ℕ → ℤ → Type 0
Between high x = (n : ℕ) × (x ≡ pos n) × (1 ≤ n) × (n ≤ high)

-- The bounds of __post_init__.
abbrev pub Within : {F : Type 0} → (F → Bool) → SolveConfig F → Type 0
Within warm cfg =
    Between 1000 cfg.max_iterations
    × ((warm cfg.temperature ≡ true)
        × (Between 3600 cfg.timeout_sec × Between 1048576 cfg.max_tokens))

both_true : (a b : Bool) → (a && b) ≡ true → (a ≡ true) × (b ≡ true)
both_true true b e = (refl, e)
both_true false b e = cc e

within-Between : (high : ℕ) (x : ℤ) → within high x ≡ true → Between high x
unfolding within
within-Between high (pos n) e =
    let (low, top) = both_true (leb 1 n) (leb n high) e in
    (n, refl, leb→le 1 n low, leb→le n high top)
within-Between high (negsuc n) e = cc e

guarded :
    (b : Bool) (why : Refused) (rest : Option Refused)
    → (if not b then some why else rest) ≡ none
    → (b ≡ true) × (rest ≡ none)
guarded true why rest e = (refl, e)
guarded false why rest e = cc e

post_init-Within :
    {F : Type 0} (warm : F → Bool) (cfg : SolveConfig F)
    → post_init warm cfg ≡ none
    → Within warm cfg
unfolding post_init
post_init-Within warm cfg e =
    let (iterations, e₁) = guarded (within 1000 cfg.max_iterations) _ _ e in
    let (temperature, e₂) = guarded (warm cfg.temperature) _ _ e₁ in
    let (timeout, e₃) = guarded (within 3600 cfg.timeout_sec) _ _ e₂ in
    let (tokens, e₄) = guarded (within 1048576 cfg.max_tokens) _ _ e₃ in
    (
      within-Between 1000 cfg.max_iterations iterations,
      (
        temperature,
        (within-Between 3600 cfg.timeout_sec timeout, within-Between 1048576 cfg.max_tokens tokens),
      ),
    )

abbrev pub IsWithin : {F : Type 0} → (F → Bool) → Resolved F → Type 0
IsWithin warm (config cfg) = Within warm cfg
IsWithin warm _ = Unit

checked-IsWithin :
    {F : Type 0} (warm : F → Bool) (cfg : SolveConfig F)
    → IsWithin warm (checked (post_init warm cfg) cfg)
unfolding checked
checked-IsWithin {F = F} warm cfg = by_check (post_init warm cfg) refl
  where
    by_check :
        (o : Option Refused)
        → post_init warm cfg ≡ o
        → IsWithin warm (checked (post_init warm cfg) cfg)
    by_check none e = rw e (post_init-Within warm cfg e)
    by_check (some why) e = rw e tt

with_numbers-IsWithin :
    {F : Type 0} (warm : F → Bool) (int : Bytes → Option ℤ) (default_temperature : F)
    (environ env : Bytes → Option Bytes) (base_url api_key model : Option Bytes)
    (iterations timeout tokens : Option ℤ)
    → IsWithin warm (
        with_numbers warm int default_temperature environ env base_url api_key model iterations
          timeout tokens)
unfolding with_numbers
with_numbers-IsWithin warm int t environ env b a m (some i) (some o) (some n) =
    checked-IsWithin warm _
with_numbers-IsWithin warm int t environ env b a m (some i) (some o) none = tt
with_numbers-IsWithin warm int t environ env b a m (some i) none n = tt
with_numbers-IsWithin warm int t environ env b a m none o n = tt

-- Whatever the arguments, the environment and the .env file hold: a config that is resolved has
-- 1..1000 rounds, a temperature that passes its test, a timeout of 1..3600 s and 1..1048576 tokens.
pub resolve_llm_config-IsWithin :
    {F : Type 0} (warm : F → Bool) (int : Bytes → Option ℤ) (default_temperature : F)
    (environ env : Bytes → Option Bytes) (base_url api_key model : Option Bytes)
    → IsWithin warm
        (resolve_llm_config warm int default_temperature environ env base_url api_key model)
unfolding resolve_llm_config
resolve_llm_config-IsWithin warm int temperature environ env base_url api_key model =
    with_numbers-IsWithin warm int temperature environ env base_url api_key model _ _ _
