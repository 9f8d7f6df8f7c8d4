-- ===== src/Proposer/Proposals.antt =====
-- What internal/ai/proposer.go lets through.
use autonomous_remediation_e.Prelude.{
  ℕ, ◌≤◌, ◌<◌, ◌≡◌, ◌≢◌, Bool, true, List, [], ◌∷◌, Option, none, some, Bytes, ◌⊎◌, inl,
}
use autonomous_remediation_e.Proposer.{
  Config, endpoint_of, request_of, split_reasoning, Proposal, Proposer, Choice,
  ChatCompletionResponse, IntermediateProposal, Proposed, ok, err, answered, Library,
  runbook_disk_cleanup, runbook_process_hang, runbook_tls_rotation, runbook_config_rollback,
  new_proposer, proposal_of,
}
use autonomous_remediation_e.Proposer.Extraction.{extract_json}

-- A proposal that may be carried out: a runbook of the catalog, and a target.
pub record IsAuthorized (p : Proposal) : Type 0 where
  pub catalog :
      (p.runbook_id ≡ runbook_disk_cleanup)
      ⊎ (p.runbook_id ≡ runbook_process_hang)
      ⊎ (p.runbook_id ≡ runbook_tls_rotation)
      ⊎ (p.runbook_id ≡ runbook_config_rollback)
  pub targeted : p.target_resource ≢ []

module _ (valid : Bytes → Bool) where
  -- What is found is JSON.
  abbrev IsJson : Option Bytes → Type 0
  IsJson none = Unit
  IsJson (some s) = valid s ≡ true

-- The model answered a request for the log with this choice: the request went to the endpoint of the
-- configuration with its key, its model, the prompt and the log, the status was a success, and the
-- choice is the first of the body's completion.
pub record IsAnswered (lib : Library) (prompt : Bytes) (cfg : Config) (log : Bytes)
    (choice : Choice) : Type 0 where
  pub proposer : Proposer
  pub made : new_proposer cfg ≡ inl proposer
  pub code : ℕ
  pub body : Bytes
  pub posted :
      lib.post
        (endpoint_of proposer.cfg.base_url)
        proposer.cfg.api_key
        (request_of prompt proposer.cfg.model log)
      ≡ answered code body
  pub success : (200 ≤ code) × (code < 300)
  pub completion : ChatCompletionResponse
  pub completes : lib.parse_completion body ≡ some completion
  pub others : List Choice
  pub first : completion.choices ≡ choice ∷ others

-- Where a proposal comes from: JSON that is found in what the model answered about the log, and the
-- model's reasoning.
pub record IsFounded (lib : Library) (prompt : Bytes) (cfg : Config) (log : Bytes) (p : Proposal)
    : Type 0 where
  pub authorized : IsAuthorized p
  pub choice : Choice
  pub answer : IsAnswered lib prompt cfg log choice
  pub json : Bytes
  pub found : extract_json lib.valid (split_reasoning choice).1 ≡ some json
  pub is_json : lib.valid json ≡ true
  pub read : IntermediateProposal
  pub parses : lib.parse_proposal json ≡ some read
  pub copied : p ≡ proposal_of (split_reasoning choice).0 read

module _ (lib : Library) (prompt : Bytes) (cfg : Config) (log : Bytes) where
  -- Every proposal that comes out is authorized and founded.
  pub Vets : Proposed → Type 0
  Vets (ok p) = IsFounded lib prompt cfg log p
  Vets (err e) = Unit
