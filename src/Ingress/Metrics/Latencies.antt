-- ===== src/Ingress/Metrics/Latencies.antt =====
-- What the histograms hold after a list of results.
use autonomous_remediation_e.Prelude.{
  ℕ, ◌+◌, ◌%◌, ◌^◌, ◌≡◌, refl, ◌∙◌, ap, sym, Bool, ◌&&◌, List, [], ◌∷◌, some, String, Bytes,
  bytes_eq, bytes_eq_iff, leb, if◌then◌else◌, map, arith, count_if, Bool-cases, inl, inr,
}
use autonomous_remediation_e.Engine.{Failure, RemediationResult}
use autonomous_remediation_e.Ingress.Metrics.{
  default_duration_buckets, Histogram, new_histogram, observe, find, Metrics, new_metrics, or_new,
  record_action, record_precheck_failure, record_rollback, record_damping_tripped,
  record_remediation_result,
}
use autonomous_remediation_e.Ingress.Metrics.Counters.{
  incremented-mod, find-put, observe_buckets-map, map_pointwise,
}
use autonomous_remediation_e.Ingress.Metrics.Totals.{runbook_of, record_all}

-- The histogram of a runbook; a fresh one, where nothing was observed.
abbrev pub observed : Bytes → Metrics → Histogram
observed k m = or_new (find k m.duration_histograms)

-- The total of the durations of the results that pass a test.
unfoldable pub duration_sum : (RemediationResult → Bool) → List RemediationResult → ℕ
duration_sum p [] = 0
duration_sum p (r ∷ rs) = (if p r then r.duration else 0) + duration_sum p rs

-- The histogram that is described by its counts under each bound, its sum and its total.
pub tallied : (ℕ → ℕ) → ℕ → ℕ → Histogram
tallied c s t = record {
  buckets = default_duration_buckets;
  counts = map (λ b. c b % 2 ^ 64) default_duration_buckets;
  sum = s;
  total = t % 2 ^ 64;
}

observe-tallied :
    (v : ℕ) (c : ℕ → ℕ) (s t : ℕ)
    → observe v (tallied c s t) ≡ tallied (λ b. if leb v b then c b + 1 else c b) (s + v) (t + 1)
unfolding observe tallied
observe-tallied v c s t = cc (observe_buckets-map v c default_duration_buckets, incremented-mod t)

-- Equal descriptions give equal histograms.
tallied_pointwise :
    (c c' : ℕ → ℕ) (s s' t t' : ℕ)
    → ((b : ℕ) → c b ≡ c' b)
    → s ≡ s'
    → t ≡ t'
    → tallied c s t ≡ tallied c' s' t'
unfolding tallied
tallied_pointwise c c' s s' t t' h p q = cc (
  map_pointwise (λ b. c b % 2 ^ 64) (λ b. c' b % 2 ^ 64) default_duration_buckets
      (λ b. ap (λ x. x % 2 ^ 64) (h b)),
  p,
  q,
)

module _ (message : Failure → String) where
  observed_step :
      (k : Bytes) (r : RemediationResult) (m : Metrics)
      → observed k (record_remediation_result message (some r) m)
        ≡ (if bytes_eq (runbook_of r) k then observe r.duration (observed k m) else observed k m)
  unfolding record_remediation_result record_action record_precheck_failure record_rollback
      record_damping_tripped
  observed_step k r m = ground (
    arith,
    find-put k (runbook_of r) (observe r.duration (observed (runbook_of r) m))
        m.duration_histograms,
    bytes_eq_iff (runbook_of r) k,
  )

  -- How many results of a runbook took no longer than a bound.
  abbrev pub within : Bytes → List RemediationResult → ℕ → ℕ
  within k rs b = count_if (λ r. bytes_eq (runbook_of r) k && leb r.duration b) rs

  observed_along :
      (k : Bytes) (rs : List RemediationResult) (m : Metrics) (c : ℕ → ℕ) (s t : ℕ)
      → observed k m ≡ tallied c s t
      → observed k (record_all message rs m)
        ≡ tallied
            (λ b. c b + within k rs b)
            (s + duration_sum (λ r. bytes_eq (runbook_of r) k) rs)
            (t + count_if (λ r. bytes_eq (runbook_of r) k) rs)
  unfolding record_all duration_sum
  observed_along k [] m c s t h =
      h ∙ tallied_pointwise _ _ _ _ _ _ (λ b. omega arith) (omega arith) (omega arith)
  observed_along k (r ∷ rs) m c s t h = elim (Bool-cases (bytes_eq (runbook_of r) k)) [
    | inl e ↦
        let moved : observed k (record_remediation_result message (some r) m)
            ≡ tallied (λ b. if leb r.duration b then c b + 1 else c b) (s + r.duration) (t + 1) =
          observed_step k r m
          ∙ rw e (ap (observe r.duration) h ∙ observe-tallied r.duration c s t) in
        observed_along k rs (record_remediation_result message (some r) m) _ _ _ moved
        ∙ tallied_pointwise _ _ _ _ _ _ (λ b. ground arith) (ground arith) (ground arith)
    | inr e ↦
        let kept : observed k (record_remediation_result message (some r) m) ≡ tallied c s t =
          observed_step k r m ∙ rw e h in
        observed_along k rs (record_remediation_result message (some r) m) c s t kept
        ∙ tallied_pointwise _ _ _ _ _ _ (λ b. ground arith) (ground arith) (ground arith)
  ]

  fresh_tallied : tallied (λ b. 0) 0 0 ≡ new_histogram default_duration_buckets
  unfolding tallied new_histogram
  fresh_tallied = refl

  -- After any list of results, counted from nothing, the histogram of a runbook holds under each
  -- bound of its buckets the number of the runbook's results that took no longer (modulo 2^64), the
  -- sum of their durations, and their number (modulo 2^64).
  pub record_all-histogram :
      (rs : List RemediationResult) (k : Bytes)
      → observed k (record_all message rs new_metrics) ≡ record {
        buckets = default_duration_buckets;
        counts = map (λ b. within k rs b % 2 ^ 64) default_duration_buckets;
        sum = duration_sum (λ r. bytes_eq (runbook_of r) k) rs;
        total = count_if (λ r. bytes_eq (runbook_of r) k) rs % 2 ^ 64;
      }
  unfolding tallied find
  record_all-histogram rs k =
      let sums = duration_sum (λ r. bytes_eq (runbook_of r) k) rs in
      let total = count_if (λ r. bytes_eq (runbook_of r) k) rs in
      observed_along k rs new_metrics (λ b. 0) 0 0 (sym fresh_tallied)
      ∙ tallied_pointwise (λ b. 0 + within k rs b) (within k rs) (0 + sums) sums (0 + total) total
          (λ b. omega arith) (omega arith) (omega arith)
