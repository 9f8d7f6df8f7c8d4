-- ===== src/Proposer/Tests.antt =====
-- Runs of internal/ai/proposer.go on a model that answers with one proposal.
use autonomous_remediation_e.Prelude.{true, [], ◌∷◌, none, some, codes}
use autonomous_remediation_e.Proposer.{Config, Proposal, answered, Library, runbook_tls_rotation}

-- A library for which every text in braces is the same proposal.
abbrev library : Library
library = record {
  post = λ endpoint key req. answered 200 (codes "{}");
  valid = λ s. true;
  parse_completion = λ s. some (record {
    choices = record { content = codes "<think>why</think> so: {a}"; reasoning_content = [] } ∷ [];
    error = none;
  });
  parse_proposal = λ s. some (record {
    runbook_id = codes " tls_cert_reload";
    runbook_id_alt = [];
    target_resource = s;
    target_resource_alt = [];
    severity = [];
    diagnosis = [];
    reasoning_content = [];
    reasoning_alt = [];
  });
}

abbrev config : Config
config = record { base_url = codes "http://m/v1/"; api_key = codes "k"; model = []; timeout = 0 }

abbrev proposal : Proposal
proposal = record {
  runbook_id = runbook_tls_rotation;
  target_resource = codes "{a}";
  severity = codes "HIGH";
  diagnosis = [];
  reasoning_content = codes "why";
}
