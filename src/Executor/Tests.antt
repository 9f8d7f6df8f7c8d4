-- ===== src/Executor/Tests.antt =====
-- Runs of internal/executor/executor.go on a small host.
use autonomous_remediation_e.Prelude.{ℕ, ◌≡◌, refl, [], none, some}
use autonomous_remediation_e.Host.Toy.{toy, two_files}
use autonomous_remediation_e.Executor.{
  BlastRadius, Action, effective_timeout, empty_result, execute,
}
use autonomous_remediation_e.Executor.Bounds.{Within, execute-Within}

abbrev clamp : BlastRadius
clamp = record {
  max_execution_time = 5;
  max_bytes_mutated = 100;
  max_processes_signaled = 0;
  max_files_modified = 1;
  allowed_path_prefixes = [];
}

abbrev truncating : Action ℕ
truncating = record {
  name = "truncate";
  binary = "";
  args = [];
  timeout = 30;
  uid = 0;
  gid = 0;
  target_pid = 0;
  signal = 0;
  mutate_fn =
      some (λ target timeout w. (w, some (record empty_result { bytes_mutated = 40 }), none));
}

abbrev hangup : Action ℕ
hangup = record truncating { target_pid = 7; signal = 1; mutate_fn = none }

effective_timeout_clamped : effective_timeout 30 clamp ≡ 5
unfolding effective_timeout
effective_timeout_clamped = refl

execute-Within_example :
    Within toy
      (effective_timeout 30 clamp)
      clamp
      two_files
      (execute toy "/a" truncating clamp two_files)
execute-Within_example = execute-Within toy "/a" truncating clamp two_files (λ e. cc e)
