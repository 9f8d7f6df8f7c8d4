-- ===== src/Lib.antt =====
-- The autonomous remediation engine, a Go program (module autonomous-remediation-engine): alerts
-- start runbooks, whose actions run behind a lock, a rate limit and preconditions, with a journal of
-- compensating steps and a hash-chained audit ledger.
--
-- The parts, from the ground up, and the files that model them:
--   Prelude    shared names; tests on numbers, lists, octets, texts and maps (association lists).
--   Fsm        internal/model/state.go: `can_transition` is CanTransition, `new_fsm` NewFSM,
--              `transition` Transition. Monotone ranks the states, History says what a history holds.
--   Damping    internal/damping/damping.go: `can_execute` is CanExecute, `record_execution_at`
--              RecordExecution(At), `trip` Trip, `reset` Reset, `load` and `save_locked` the state
--              file. Gate has lemmas on one call; Attempts are runs of calls by whatever callers;
--              Rates, Quarantine and Isolation say what holds of them.
--   Audit      internal/audit: `append` is Append, `new_ledger` NewLedger (ledger.go),
--              `verify_ledger` VerifyLedgerReader (verify.go). A file is its lines, the last of which
--              may lack its newline. Acceptance has
--              the lemmas on accepted files, Chain what is appended, Integrity what a tail hash pins
--              down, Limits and Poison what goes unnoticed or breaks a file.
--   Lock       internal/lock/lock.go: `lock_path_for` is LockPathFor, `try_lock_path` TryLockPath,
--              `unlock` Unlock, over the kernel's table of advisory locks. Names is about the file
--              names, Exclusion about any interleaving of calls.
--   Host       the host as a state with the operating system's answers as a parameter, `System`.
--   Rollback   internal/rollback: `stage`, `update_state`, `read` and `list_pending` are Stage,
--              UpdateState, Read and ListPending (journal.go); `execute_rollback` in Replay is
--              ExecuteRollback, `execute_single_step` executeSingleStep (rollback.go). Undo and
--              Pending say what they achieve on the host and in the journal.
--   Executor   internal/executor/executor.go: `execute` is Execute, cut into `effective_timeout`,
--              `mutated`, `signaled` and `commanded`. Bounds says what a call keeps to.
--   Verifier   internal/verifier/verifier.go: `verify_condition` is VerifyPrecondition and
--              VerifyPostcondition, which differ in their messages alone; Verdicts says what a
--              condition that passes means.
--   Engine     internal/engine/engine.go: `remediate` is Remediate, cut at its numbered sections:
--              `resolve` (2), `lock_runbook` and `hold` (3), `gate_runbook` and `admit` (4),
--              `conditioned` (5), `stage_runbook` and `proceed` (6), `execute_runbook` with `attempt`
--              (7, 8), `conclude`, `commit` and `revert` (9). Catalog has RegisterRunbook and
--              GetRunbook, Lookup what they find, Lifecycle NewEngine, IsHealthy and Close. Outcomes,
--              Locking, Admission, Recovery, Trail and Restoration say what a call does.
--   Drain      internal/runbooks/runbooks.go, RBK-DISK-001: `clamped` is the head of
--              NewDiskCleanupRunbook, `prune_oldest_archives` its loop; Checks has its conditions, its
--              action and the runbook, Clamps and Intact say what it keeps to. The sum of the sizes is
--              an int64, as its bit pattern.
--   Ingress    internal/ingress: what hands alerts to the engine. Processor is Process with the
--              daemon's state; Metrics (metrics.go) `record_remediation_result` and the rendering in
--              Render; Http (http_server.go) `handle_alerts` and the other handlers with the HMAC check;
--              Socket (unix_socket.go) `handle_conn`; Poller (poller.go) `poll_once`.
--   Proposer   internal/ai/proposer.go: `propose_remediation` is ProposeRemediation, Extraction cuts
--              the JSON out of the answer of the language model; Proposals and Aliases say what a
--              proposal that is returned rests on.
--   Config     internal/config/config.go: Yaml is ParseBasicYAML on code points, Settings
--              `load_config`, `parse_config` and `unmarshal_json`.
--   Runbooks   internal/runbooks: Restart is RBK-PROC-001, Rotation RBK-TLS-001 with
--              VerifyCertAndKeyModulus in Modulus, Lkg RBK-CFG-001 with ValidateConfigSyntax in
--              Syntax; each gives its `Runbook` for the engine, and Lkg/Committed runs it there.
--              Files has the calls into the file system that they share. Catalog is catalog.go.
--   Ctl        cmd/remediation-ctl/main.go: `ctl_main` in Commands is main, `handle_run` in Run,
--              `handle_triage` in Triage (Resolve has its flags and what it takes from them, Preview what
--              it prints), `handle_verify_audit`, `handle_ctl_status` and `handle_list_runbooks` in
--              Reports, `handle_damping_status` in Circuits. Flags is the package flag; Spelling,
--              RoundTrip, Spelled and Arguments are about its arguments. Ends, Enforced, Committed, Idle and
--              Probing say what a command lets happen and what its exit status means.
-- Tests in each part run the definitions on concrete input.
--
-- How the parts interact: a call of Remediate owns an `Fsm` and works on a `State`: the host, the
-- kernel's locks, the ledger, the journal and the damping controller. Each stage makes a transition
-- and appends to the ledger, drops the errors of both, and hands the state on. What a call reads from
-- outside (clocks, how writes end, what the file system answers) is a record of readings, over which
-- the theorems quantify. A command of remediation-ctl makes an engine over what the paths of its
-- configuration hold (`Disk`), registers the catalog, and ends with lines, an exit status and what it
-- leaves. os.Exit ends a command where it is called, so that a deferred Close is not run.
--
-- Bounds. Sequence numbers and the counters of the metrics are uint64, with the wrap-around written
-- out; times are natural numbers of nanoseconds, and a duration, limit or process id that is not
-- positive is 0, as each test of the source treats it. Two recursions have fuel, which is enough: the
-- YAML parser takes 2 for each line and 2, since each round takes a line or descends at one; a waiting
-- loop of RBK-PROC-001 takes as many rounds as pauses of 50 ms fit in its timeout and 2, since the
-- clock stops it. All else is structural.
--
-- Parameters, for code that is not in this repository: SHA-256 and HMAC, the JSON codec, the parsers of
-- crypto/x509 and encoding/pem, the HTTP client of the proposer, ParseDuration and the test for a float64
-- in the configuration, the texts that fmt and time make of values, the operating system, and the float64
-- comparison of percentages. The closures in runbooks are functions on the host; the variables that the
-- closures of one runbook share are a part of it. Errors are data with what their messages show.
--
-- Not modelled: calls that interleave on one engine within a Remediate (Lock and Damping treat
-- their own interleavings); a change of the host other than by the runbook's own functions while a
-- call runs is part of what these functions do. The opening and closing of listeners, the ticker
-- of the poller and the daemon's start and shutdown (cmd/remediation-daemon) are sockets,
-- goroutines and signals around the parts above, and left out. So are the modes of files,
-- directories and syncs, and the copy of a file by StageFileBackup. DefaultCatalog takes its four
-- runbooks as arguments, and the commands take the catalog. The path that NewJournal takes in
-- place of an empty one is left to `Disk`, but for the command status. ToUpper changes letters of
-- Latin-1 and the dotless i and long s, and leaves others. `range` over a map is the order of the
-- association list, which is arbitrary. Text that is not valid UTF-8 is not modelled.
pub mod Prelude
pub mod Fsm
pub mod Damping
pub mod Audit
pub mod Lock
pub mod Host
pub mod Rollback
pub mod Executor
pub mod Verifier
pub mod Engine
pub mod Drain
pub mod Ingress
pub mod Proposer
pub mod Config
pub mod Runbooks
pub mod Ctl
