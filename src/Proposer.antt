-- ===== src/Proposer.antt =====
-- internal/ai/proposer.go: from an incident log to a proposed runbook. The HTTP client and the JSON of
-- the library are parameters. A text is the list of its code points.
pub mod Extraction
pub mod Proposals
pub mod Aliases
mod Tests
use autonomous_remediation_e.Prelude.{
  ℕ, ◌+◌, Bool, true, false, ◌&&◌, ◌||◌, not, List, [], ◌∷◌, ◌++◌, Option, none, some, Bytes,
  bytes_eq, codes, ltb, leb, ◌==◌, if◌then◌else◌, map, ◌⊎◌, inl, inr,
}
use autonomous_remediation_e.Prelude.Strings.{trim_space, trim_back, has_suffix, to_upper}
use autonomous_remediation_e.Proposer.Extraction.{extract_think_tags, extract_json}

-- `Config`; a timeout that is not positive is 0.
pub record Config : Type 0 where
  pub base_url : Bytes
  pub api_key : Bytes
  pub model : Bytes
  pub timeout : ℕ

pub record Proposal : Type 0 where
  pub runbook_id : Bytes
  pub target_resource : Bytes
  pub severity : Bytes
  pub diagnosis : Bytes
  pub reasoning_content : Bytes

-- `Proposer`, with the timeout of the client that it makes where the caller gives none.
pub record Proposer : Type 0 where
  pub cfg : Config
  pub client_timeout : ℕ

pub record ChatMessage : Type 0 where
  pub role : Bytes
  pub content : Bytes

-- `chatCompletionRequest`; the temperature is in tenths.
pub record ChatCompletionRequest : Type 0 where
  pub model : Bytes
  pub messages : List ChatMessage
  pub temperature : ℕ
  pub max_tokens : ℕ

-- The message of a choice.
pub record Choice : Type 0 where
  pub content : Bytes
  pub reasoning_content : Bytes

-- `chatCompletionResponse`, with the message of its error, if it has one.
pub record ChatCompletionResponse : Type 0 where
  pub choices : List Choice
  pub error : Option Bytes

pub record IntermediateProposal : Type 0 where
  pub runbook_id : Bytes
  pub runbook_id_alt : Bytes
  pub target_resource : Bytes
  pub target_resource_alt : Bytes
  pub severity : Bytes
  pub diagnosis : Bytes
  pub reasoning_content : Bytes
  pub reasoning_alt : Bytes

pub data ProposeError : Type 0 where
  empty_base_url empty_api_key empty_log : ProposeError
  request_failed unread_body : ProposeError
  http_status : ℕ → ProposeError
  bad_completion : ProposeError
  api_error : Bytes → ProposeError
  no_choices no_json bad_schema : ProposeError
  missing_runbook_id missing_target_resource : ProposeError
  unauthorized : Bytes → ProposeError

pub data Proposed : Type 0 where
  ok : Proposal → Proposed
  err : ProposeError → Proposed

-- What comes of the request: the status and the body, or why there are none.
pub data Answer : Type 0 where
  answered : ℕ → Bytes → Answer
  failed : ProposeError → Answer

-- The HTTP client, by the endpoint, the key and the request, and the parts of encoding/json.
pub record Library : Type 0 where
  pub post : Bytes → Bytes → ChatCompletionRequest → Answer
  pub valid : Bytes → Bool
  pub parse_completion : Bytes → Option ChatCompletionResponse
  pub parse_proposal : Bytes → Option IntermediateProposal

abbrev pub runbook_disk_cleanup : Bytes
runbook_disk_cleanup = codes "RBK-DISK-001"

abbrev pub runbook_process_hang : Bytes
runbook_process_hang = codes "RBK-PROC-001"

abbrev pub runbook_tls_rotation : Bytes
runbook_tls_rotation = codes "RBK-TLS-001"

abbrev pub runbook_config_rollback : Bytes
runbook_config_rollback = codes "RBK-CFG-001"

abbrev pub or_text : Bytes → Bytes → Bytes
or_text [] other = other
or_text (c ∷ cs) other = c ∷ cs

-- `NewProposer`.
unfoldable pub new_proposer : Config → Proposer ⊎ ProposeError
new_proposer cfg =
    if bytes_eq (trim_space cfg.base_url) []
    then inr empty_base_url
    else if bytes_eq (trim_space cfg.api_key) []
    then inr empty_api_key
    else inl (record {
      cfg = record cfg {
        model =
            if bytes_eq (trim_space cfg.model) []
            then codes "nvidia/nemotron-3-ultra-550b-a55b"
            else cfg.model;
      };
      client_timeout = if cfg.timeout == 0 then 60000000000 else cfg.timeout;
    })

-- `normalizeRunbookID`.
unfoldable pub normalize_runbook_id : Bytes → Bytes
normalize_runbook_id id =
    let name = map to_upper (trim_space id) in
    if bytes_eq name runbook_disk_cleanup
      || bytes_eq name (codes "DISK_CLEANUP_VAR_LOG")
      || bytes_eq name (codes "DISK_LOG_DRAIN")
    then runbook_disk_cleanup
    else if bytes_eq name runbook_process_hang
        || bytes_eq name (codes "SERVICE_DEADLOCK_RESTART")
        || bytes_eq name (codes "SERVICE_HANG_RECOVERY")
    then runbook_process_hang
    else if bytes_eq name runbook_tls_rotation
        || bytes_eq name (codes "TLS_CERT_RENEW_INTERNAL")
        || bytes_eq name (codes "TLS_CERT_ROTATION")
        || bytes_eq name (codes "TLS_CERT_RELOAD")
    then runbook_tls_rotation
    else if bytes_eq name runbook_config_rollback || bytes_eq name (codes "CONFIG_ROLLBACK")
    then runbook_config_rollback
    else name

-- `isValidRunbookID`.
unfoldable pub is_valid_runbook_id : Bytes → Bool
is_valid_runbook_id id =
    bytes_eq id runbook_disk_cleanup
    || bytes_eq id runbook_process_hang
    || bytes_eq id runbook_tls_rotation
    || bytes_eq id runbook_config_rollback

-- The endpoint of the chat.
unfoldable pub endpoint_of : Bytes → Bytes
endpoint_of base_url =
    let endpoint = trim_back (λ c. c == 47) base_url in
    if has_suffix (codes "/chat/completions") endpoint
    then endpoint
    else endpoint ++ codes "/chat/completions"

-- The request for a log; the first text is `DefaultSystemPrompt`.
unfoldable pub request_of : Bytes → Bytes → Bytes → ChatCompletionRequest
request_of prompt model incident_log = record {
  model = model;
  messages =
      record { role = codes "system"; content = prompt }
      ∷ record {
        role = codes "user";
        content = codes "Incident Log / Telemetry:\n\n" ++ incident_log;
      }
      ∷ [];
  temperature = 1;
  max_tokens = 1024;
}

-- The reasoning of a choice and the content without it.
unfoldable pub split_reasoning : Choice → Bytes × Bytes
split_reasoning choice =
    let (thought, cleaned) = extract_think_tags choice.content in
    if bytes_eq thought []
    then (choice.reasoning_content, choice.content)
    else (or_text choice.reasoning_content thought, cleaned)

-- The proposal that the model's JSON stands for.
unfoldable pub proposal_of : Bytes → IntermediateProposal → Proposal
proposal_of reasoning i = record {
  runbook_id = normalize_runbook_id (or_text i.runbook_id i.runbook_id_alt);
  target_resource = trim_space (or_text i.target_resource i.target_resource_alt);
  severity = or_text (trim_space (map to_upper i.severity)) (codes "HIGH");
  diagnosis = trim_space i.diagnosis;
  reasoning_content =
      trim_space (or_text reasoning (trim_space (or_text i.reasoning_content i.reasoning_alt)));
}

-- The tests of a proposal.
unfoldable pub vetted : Proposal → Proposed
vetted p =
    if bytes_eq p.runbook_id []
    then err missing_runbook_id
    else if bytes_eq p.target_resource []
    then err missing_target_resource
    else if is_valid_runbook_id p.runbook_id
    then ok p
    else err (unauthorized p.runbook_id)

module _ (lib : Library) where
  -- With the schema of the proposal, or without.
  unfoldable pub judged : Bytes → Option IntermediateProposal → Proposed
  judged reasoning none = err bad_schema
  judged reasoning (some i) = vetted (proposal_of reasoning i)

  unfoldable pub extracted : Bytes → Option Bytes → Proposed
  extracted reasoning none = err no_json
  extracted reasoning (some json) = judged reasoning (lib.parse_proposal json)

  -- The first choice counts.
  unfoldable pub chosen : List Choice → Proposed
  chosen [] = err no_choices
  chosen (choice ∷ choices) =
      let (reasoning, content) = split_reasoning choice in
      extracted reasoning (extract_json lib.valid content)

  unfoldable pub without_error : ChatCompletionResponse → Option Bytes → Proposed
  without_error r none = chosen r.choices
  without_error r (some []) = chosen r.choices
  without_error r (some (c ∷ cs)) = err (api_error (c ∷ cs))

  unfoldable pub completed : Option ChatCompletionResponse → Proposed
  completed none = err bad_completion
  completed (some r) = without_error r r.error

  unfoldable pub replied : Answer → Proposed
  replied (failed e) = err e
  replied (answered code body) =
      if ltb code 200 || leb 300 code
      then err (http_status code)
      else completed (lib.parse_completion body)

  -- The method `ProposeRemediation`; the first text is `DefaultSystemPrompt`.
  unfoldable pub ask : Bytes → Proposer → Bytes → Proposed
  ask prompt p incident_log =
      if bytes_eq (trim_space incident_log) []
      then err empty_log
      else replied (
          lib.post (endpoint_of p.cfg.base_url) p.cfg.api_key
            (request_of prompt p.cfg.model incident_log))

  -- The function `ProposeRemediation`.
  unfoldable pub propose_remediation : Bytes → Config → Bytes → Proposed
  propose_remediation prompt cfg incident_log = elim (new_proposer cfg) [
    | inl p ↦ ask prompt p incident_log
    | inr e ↦ err e
  ]
