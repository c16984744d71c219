-- ===== src/Agent/Chat.antt =====
-- `chat_completion` of src/ironbench/agent.py: one request to the server of a model.
--
-- Sending the request and reading the JSON of its answer is a parameter, `open_url`. It gives the fields
-- of the answer that are read, none where there is no first choice with a message, or what it raised.
use ironharness.Prelude.{ℕ, ◌==◌, if◌then◌else◌, Option, none, some, List, [], ◌∷◌, ◌++◌, Bytes}
use ironharness.Prelude.Text.{codes}
use ironharness.Agent.{Message}
use ironharness.Prelude.Integer.{ℤ}
use ironharness.Agent.Config.{SolveConfig}
use ironharness.Agent.Endpoint.{Address, Refusal, validate_endpoint}

pub record Request (F T : Type 0) : Type 0 where
  pub url : Bytes
  pub model : Bytes
  pub messages : List Message
  pub temperature : F
  pub max_tokens : ℤ
  pub tools : List T
  pub authorization : Bytes
  pub timeout : ℤ

-- The fields of the first choice's message, and the two of the usage; none where one is missing or
-- null.
pub record Payload (M : Type 0) : Type 0 where
  pub message : M
  pub content : Option Bytes
  pub reasoning : Option Bytes
  pub reasoning_content : Option Bytes
  pub prompt_tokens : Option ℕ
  pub completion_tokens : Option ℕ

pub record ChatReply (M : Type 0) : Type 0 where
  pub content : Bytes
  pub prompt_tokens : ℕ
  pub completion_tokens : ℕ
  pub message : M

pub data Sent (A E : Type 0) : Type 0 where
  received : A → Sent A E
  raised : E → Sent A E
  no_message : Sent A E
  refused : Refusal → Sent A E

-- text.rstrip("/")
unfoldable pub rstrip_slashes : Bytes → Bytes
rstrip_slashes [] = []
rstrip_slashes (c ∷ text) =
    let rest = rstrip_slashes text in
    elim rest [ [] ↦ if c == 47 then [] else c ∷ [] | d ∷ more ↦ c ∷ d ∷ more ]

-- a or b, where what is empty is false
unfoldable pub or_text : Option Bytes → Bytes → Bytes
or_text none other = other
or_text (some []) other = other
or_text (some (c ∷ cs)) other = c ∷ cs

unfoldable pub or_zero : Option ℕ → ℕ
or_zero none = 0
or_zero (some n) = n

-- The answer, or the reasoning channel where the answer is empty.
unfoldable pub reply_of : {M : Type 0} → Payload M → ChatReply M
reply_of p = record {
  content = or_text p.content (or_text p.reasoning (or_text p.reasoning_content []));
  prompt_tokens = or_zero p.prompt_tokens;
  completion_tokens = or_zero p.completion_tokens;
  message = p.message;
}

unfoldable pub completed :
    {M E W : Type 0} → Sent (Option (Payload M)) E × W → Sent (ChatReply M) E × W
completed (received none, w) = (no_message, w)
completed (received (some p), w) = (received (reply_of p), w)
completed (raised e, w) = (raised e, w)
completed (no_message, w) = (no_message, w)
completed (refused why, w) = (refused why, w)

module _ {F T M E W : Type 0} (hostname : Bytes → Option Bytes)
    (getaddrinfo : Bytes → Option (List Address))
    (open_url : Request F T → W → Sent (Option (Payload M)) E × W) where
  abbrev pub request : SolveConfig F → List Message → List T → Request F T
  request cfg messages tools = record {
    url = rstrip_slashes cfg.base_url ++ codes "/chat/completions";
    model = cfg.model;
    messages = messages;
    temperature = cfg.temperature;
    max_tokens = cfg.max_tokens;
    tools = tools;
    authorization = codes "Bearer " ++ cfg.api_key;
    timeout = cfg.timeout_sec;
  }

  -- Without tools the list of them is empty.
  unfoldable pub chat_completion :
      SolveConfig F → List Message → List T → W → Sent (ChatReply M) E × W
  chat_completion cfg messages tools w =
      elim (validate_endpoint hostname getaddrinfo cfg.base_url cfg.allow_local) [
        | some why ↦ (refused why, w)
        | none ↦ completed (open_url (request cfg messages tools) w)
      ]
