-- ===== src/Ingress/Metrics.antt =====
-- internal/ingress/metrics.go: the counters and the latency histograms. A counter is a uint64, with
-- its wrap-around. A duration is a number of nanoseconds, and so is the sum of a histogram, which the
-- program keeps in seconds as a float64. A map is an association list from byte strings.
pub mod Counters
pub mod Kinds
pub mod Totals
pub mod Latencies
pub mod Render
pub mod Reading
use autonomous_remediation_e.Prelude.{
  ℕ, ◌+◌, ◌*◌, ◌%◌, ◌^◌, Bool, true, false, ◌||◌, List, [], ◌∷◌, ◌++◌, Option, none, some, String,
  Bytes, bytes_eq, codes, leb, if◌then◌else◌, map, length,
}
use autonomous_remediation_e.Fsm.{
  ExecutionState, precheck_failed, rolled_back, rolling_back, state_eq,
}
use autonomous_remediation_e.Drain.{contains}
use autonomous_remediation_e.Engine.{Failure, RemediationResult}
use autonomous_remediation_e.Engine.Steps.{state_text}

-- `x++` on a uint64.
abbrev pub incremented : ℕ → ℕ
incremented n = (n + 1) % 2 ^ 64

-- The bounds of the buckets, in nanoseconds.
abbrev pub default_duration_buckets : List ℕ
default_duration_buckets =
    50000000 ∷ 100000000 ∷ 250000000 ∷ 500000000 ∷ 1000000000 ∷ 2500000000 ∷ 5000000000
    ∷ 10000000000 ∷ 15000000000 ∷ 30000000000 ∷ []

pub record Histogram : Type 0 where
  pub buckets : List ℕ
  pub counts : List ℕ
  pub sum : ℕ
  pub total : ℕ

-- `newHistogram`.
unfoldable pub new_histogram : List ℕ → Histogram
new_histogram buckets = record {
  buckets = buckets;
  counts = map (λ b. 0) buckets;
  sum = 0;
  total = 0;
}

-- The loop of `observe` over the buckets and their counts.
unfoldable pub observe_buckets : ℕ → List ℕ → List ℕ → List ℕ
observe_buckets v (b ∷ bs) (n ∷ ns) =
    (if leb v b then incremented n else n) ∷ observe_buckets v bs ns
observe_buckets v _ ns = ns

-- `observe`.
unfoldable pub observe : ℕ → Histogram → Histogram
observe v h = record h {
  counts = observe_buckets v h.buckets h.counts;
  sum = h.sum + v;
  total = incremented h.total;
}

abbrev pub ByteMap {ℓ} : Type ℓ → Type ℓ
ByteMap V = List (Bytes × V)

module _ {ℓ} {V : Type ℓ} where
  -- `v, ok := m[k]`
  unfoldable pub find : Bytes → ByteMap V → Option V
  find k [] = none
  find k ((j, v) ∷ m) = if bytes_eq j k then some v else find k m

  -- `m[k] = v`
  unfoldable pub put : Bytes → V → ByteMap V → ByteMap V
  put k v [] = (k, v) ∷ []
  put k v ((j, w) ∷ m) = if bytes_eq j k then (k, v) ∷ m else (j, w) ∷ put k v m

-- What a map gives at a key that it may not have.
abbrev pub or_zero : Option ℕ → ℕ
or_zero none = 0
or_zero (some n) = n

-- `m[k]` and `m[k]++` on counters.
unfoldable pub count_of : Bytes → ByteMap ℕ → ℕ
count_of k m = or_zero (find k m)

unfoldable pub bump : Bytes → ByteMap ℕ → ByteMap ℕ
bump k m = put k (incremented (count_of k m)) m

pub record Metrics : Type 0 where
  pub actions_total : ByteMap ℕ
  pub duration_histograms : ByteMap Histogram
  pub precheck_failures_total : ByteMap ℕ
  pub rollbacks_total : ByteMap ℕ
  pub damping_tripped_total : ByteMap ℕ

-- `NewMetrics`.
abbrev pub new_metrics : Metrics
new_metrics = record {
  actions_total = [];
  duration_histograms = [];
  precheck_failures_total = [];
  rollbacks_total = [];
  damping_tripped_total = [];
}

abbrev pub or_named : Bytes → Bytes → Bytes
or_named name [] = name
or_named name (c ∷ cs) = c ∷ cs

-- The key of a runbook and a state: a byte 0 between them.
unfoldable pub action_key : Bytes → Bytes → Bytes
action_key runbook state = runbook ++ (0 ∷ state)

abbrev pub or_new : Option Histogram → Histogram
or_new none = new_histogram default_duration_buckets
or_new (some h) = h

-- `RecordAction`.
unfoldable pub record_action : Bytes → Bytes → ℕ → Metrics → Metrics
record_action runbook_id state duration m =
    let runbook = or_named (codes "unknown") runbook_id in
    record m {
      actions_total = bump (action_key runbook (or_named (codes "UNKNOWN") state)) m.actions_total;
      duration_histograms =
          put runbook (observe duration (or_new (find runbook m.duration_histograms)))
            m.duration_histograms;
    }

-- `RecordPrecheckFailure`, `RecordRollback` and `RecordDampingTripped`.
unfoldable pub record_precheck_failure : Bytes → Metrics → Metrics
record_precheck_failure resource m = record m {
  precheck_failures_total = bump (or_named (codes "unknown") resource) m.precheck_failures_total;
}

unfoldable pub record_rollback : Bytes → Metrics → Metrics
record_rollback resource m = record m {
  rollbacks_total = bump (or_named (codes "unknown") resource) m.rollbacks_total;
}

unfoldable pub record_damping_tripped : Bytes → Metrics → Metrics
record_damping_tripped resource m = record m {
  damping_tripped_total = bump (or_named (codes "unknown") resource) m.damping_tripped_total;
}

-- The field `Error` of a result.
abbrev pub error_text : (Failure → String) → Option Failure → Bytes
error_text message none = []
error_text message (some f) = codes (message f)

-- The tests of `RecordRemediationResult`.
unfoldable pub is_precheck_failure : RemediationResult → Bool
is_precheck_failure res = state_eq res.final_state precheck_failed

unfoldable pub is_rollback : RemediationResult → Bool
is_rollback res =
    res.rolled_back || state_eq res.final_state rolled_back || state_eq res.final_state rolling_back

unfoldable pub is_damping_trip : (Failure → String) → RemediationResult → Bool
is_damping_trip message res =
    let text = error_text message res.error in
    contains (codes "FLAP_DAMPING") text || contains (codes "damping") text

-- A step that is taken only where a test holds.
abbrev pub only_if : Bool → (Metrics → Metrics) → Metrics → Metrics
only_if test step m = if test then step m else m

-- `RecordRemediationResult`.
unfoldable pub record_remediation_result :
    (Failure → String) → Option RemediationResult → Metrics → Metrics
record_remediation_result message none m = m
record_remediation_result message (some res) m =
    let resource = codes res.resource_id in
    only_if (is_damping_trip message res) (record_damping_tripped resource) (
      only_if (is_rollback res) (record_rollback resource) (
        only_if (is_precheck_failure res) (record_precheck_failure resource) (
          record_action (codes res.runbook_id) (codes (state_text res.final_state)) res.duration
            m)))
