-- ===== src/Ctl/Resolve.antt =====
-- The flags of `handleTriage` of cmd/remediation-ctl/main.go, and what it takes from them, the files, the
-- standard input and the environment.
use autonomous_remediation_e.Prelude.{
  ℕ, ◌||◌, not, Bool, true, false, String, List, [], ◌∷◌, Option, none, some, Bytes, bytes_eq,
  codes, if◌then◌else◌, ◌⊎◌, inl, inr,
}
use autonomous_remediation_e.Prelude.Scalars.{of_codes}
use autonomous_remediation_e.Prelude.Strings.{trim_space, has_prefix, index}
use autonomous_remediation_e.Proposer.{Config, Proposal, or_text}
use autonomous_remediation_e.Engine.{Alert, Readings}
use autonomous_remediation_e.Ctl.Flags.{Flag, string, bool, text_flag}
use autonomous_remediation_e.Ctl.{Environment, concat, engine_flags}

abbrev pub triage_flags : List Flag
triage_flags =
    string "incident" ""
    ∷ string "api-key" ""
    ∷ string "base-url" ""
    ∷ string "model" ""
    ∷ bool "execute"
    ∷ engine_flags

-- What a path holds: nothing that can be looked at, a directory, a file that cannot be read, with the
-- error, or a text.
pub data FileAnswer : Type 0 where
  absent directory : FileAnswer
  unreadable : String → FileAnswer
  content : Bytes → FileAnswer

-- What the command reads: the files, the standard input where it is piped and read, the name and the
-- time of the alert, and the remediation's readings.
pub record TriageReadings : Type 0 where
  pub files : Bytes → FileAnswer
  pub stdin : Option Bytes
  pub alert_id : String
  pub now : ℕ
  pub remediation : Readings

unfoldable pub incident_of : Bytes → FileAnswer → Bytes ⊎ String
incident_of input absent = inl input
incident_of input directory = inl input
incident_of input (content data_read) = inl (trim_space data_read)
incident_of input (unreadable message) =
    inr (concat ("Error reading incident file " ∷ of_codes input ∷ ": " ∷ message ∷ []))

unfoldable pub piped : Option Bytes → Bytes
piped none = []
piped (some bytes) = trim_space bytes

-- 1. The incident log: a file, the text itself, or the standard input.
unfoldable pub resolve_incident : TriageReadings → Bytes → Bytes ⊎ String
unfolding incident_of piped
resolve_incident rs given =
    let input = trim_space given in
    if bytes_eq input [] then inl (piped rs.stdin) else incident_of input (rs.files input)

-- 2. The API key.
unfoldable pub resolve_api_key : Environment → Bytes → Bytes
resolve_api_key env given =
    or_text (trim_space given)
      (or_text (trim_space env.nvidia_api_key) (trim_space env.openai_api_key))

abbrev pub nvidia_url : Bytes
nvidia_url = codes "https://integrate.api.nvidia.com/v1"

abbrev pub openai_url : Bytes
openai_url = codes "https://api.openai.com/v1"

-- 3. The base URL.
unfoldable pub resolve_base_url : Environment → Bytes → Bytes → Bytes
resolve_base_url env api_key given = or_text (trim_space given) (
    if has_prefix (codes "nvapi-") api_key || not (bytes_eq env.nvidia_api_key [])
    then nvidia_url
    else openai_url)

abbrev pub is_found : Option ℕ → Bool
is_found none = false
is_found (some i) = true

-- 4. The model.
unfoldable pub resolve_model : Bytes → Bytes → Bytes → Bytes
resolve_model base_url api_key given = or_text (trim_space given) (
    if is_found (index (codes "nvidia") base_url) || has_prefix (codes "nvapi-") api_key
    then codes "nvidia/nemotron-3-ultra-550b-a55b"
    else codes "gpt-4o")

-- The configuration of the proposer, with the key that was resolved.
unfoldable pub triage_config : Environment → Bytes → List Flag → Config
unfolding resolve_base_url resolve_model
triage_config env api_key fs =
    let base_url = resolve_base_url env api_key (text_flag "base-url" fs) in
    record {
      base_url = base_url;
      api_key = api_key;
      model = resolve_model base_url api_key (text_flag "model" fs);
      timeout = 60000000000;
    }

-- The alert that the command makes of a proposal.
unfoldable pub triage_alert : String → ℕ → Bytes → Proposal → Alert
triage_alert alert_id now model p =
    let runbook_id = of_codes p.runbook_id in
    let target = of_codes p.target_resource in
    record {
      id = alert_id;
      fingerprint = concat ("fp-" ∷ runbook_id ∷ "-" ∷ target ∷ []);
      source = "ai-triage";
      resource_id = target;
      severity = of_codes p.severity;
      labels =
          ("runbook_id", runbook_id)
          ∷ ("ai_diagnosis", of_codes p.diagnosis)
          ∷ ("ai_model", of_codes model)
          ∷ [];
      annotations = [];
      received_at = now;
      hmac_signature = "";
      raw_payload = "";
    }
