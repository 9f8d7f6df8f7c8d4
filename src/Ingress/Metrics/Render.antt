-- ===== src/Ingress/Metrics/Render.antt =====
-- `RenderPrometheus` of internal/ingress/metrics.go. A line is data: the name, the labels and the
-- value that its format prints.
use autonomous_remediation_e.Prelude.{
  ℕ, Bool, true, false, List, [], ◌∷◌, ◌++◌, Bytes, codes, ltb, ◌==◌, if◌then◌else◌, map,
}
use autonomous_remediation_e.Ingress.Metrics.{Histogram, ByteMap, find, count_of, or_new, Metrics}

-- What a label shows: a text, or the bound of a bucket.
pub data Label : Type 0 where
  quoted : Bytes → Label
  bound : ℕ → Label
  infinity : Label

pub data Value : Type 0 where
  count : ℕ → Value
  -- A number of nanoseconds, shown in seconds.
  nanoseconds : ℕ → Value

pub data Row : Type 0 where
  help : Bytes → Row
  type : Bytes → Bytes → Row
  sample : Bytes → List (Bytes × Label) → Value → Row

-- `<=` on Go strings.
unfoldable pub bytes_le : Bytes → Bytes → Bool
bytes_le [] ys = true
bytes_le (x ∷ xs) [] = false
bytes_le (x ∷ xs) (y ∷ ys) = let rest = bytes_le xs ys in if x == y then rest else ltb x y

unfoldable pub insert_key : Bytes → List Bytes → List Bytes
insert_key k [] = k ∷ []
insert_key k (j ∷ js) = let rest = insert_key k js in if bytes_le k j then k ∷ j ∷ js else j ∷ rest

-- `sort.Strings`.
unfoldable pub sort_keys : List Bytes → List Bytes
sort_keys [] = []
sort_keys (k ∷ ks) = insert_key k (sort_keys ks)

module _ {ℓ} {V : Type ℓ} where
  unfoldable pub keys : ByteMap V → List Bytes
  keys [] = []
  keys ((k, v) ∷ m) = k ∷ keys m

  -- `sortedKeys`.
  unfoldable pub sorted_keys : ByteMap V → List Bytes
  sorted_keys m = sort_keys (keys m)

-- The part of a key before its first byte 0, and the part after it up to the next.
unfoldable pub before_zero : Bytes → Bytes
before_zero [] = []
before_zero (c ∷ cs) = let rest = before_zero cs in if c == 0 then [] else c ∷ rest

unfoldable pub after_zero : Bytes → Bytes
after_zero [] = []
after_zero (c ∷ cs) = if c == 0 then before_zero cs else after_zero cs

-- The rows of a counter, or one row of 0.
abbrev pub resource_row : Bytes → ByteMap ℕ → Bytes → Row
resource_row name m k = sample name ((codes "resource", quoted k) ∷ []) (count (count_of k m))

unfoldable pub rows_or_none : Row → List Row → List Row
rows_or_none blank [] = blank ∷ []
rows_or_none blank (l ∷ ls) = l ∷ ls

unfoldable pub resource_rows : Bytes → ByteMap ℕ → List Row
resource_rows name m =
    help name
    ∷ type name (codes "counter")
    ∷ rows_or_none (sample name ((codes "resource", quoted (codes "none")) ∷ []) (count 0))
        (map (resource_row name m) (sorted_keys m))

abbrev action_row : ByteMap ℕ → Bytes → Row
action_row m k =
    sample (codes "remediation_actions_total")
      ((codes "runbook", quoted (before_zero k)) ∷ (codes "state", quoted (after_zero k)) ∷ [])
      (count (count_of k m))

unfoldable pub action_rows : ByteMap ℕ → List Row
action_rows m =
    help (codes "remediation_actions_total")
    ∷ type (codes "remediation_actions_total") (codes "counter")
    ∷ rows_or_none
        (sample (codes "remediation_actions_total")
          ((codes "runbook", quoted (codes "none")) ∷ (codes "state", quoted (codes "NONE")) ∷ [])
          (count 0))
        (map (action_row m) (sorted_keys m))

-- The rows of the buckets, and those that close a histogram.
unfoldable pub bucket_rows : Bytes → List ℕ → List ℕ → List Row
bucket_rows r (b ∷ bs) (n ∷ ns) =
    sample (codes "remediation_duration_seconds_bucket")
      ((codes "runbook", quoted r) ∷ (codes "le", bound b) ∷ []) (count n)
    ∷ bucket_rows r bs ns
bucket_rows r _ _ = []

unfoldable pub closing_rows : Bytes → ℕ → ℕ → List Row
closing_rows r sum total =
    sample (codes "remediation_duration_seconds_bucket")
      ((codes "runbook", quoted r) ∷ (codes "le", infinity) ∷ []) (count total)
    ∷ sample (codes "remediation_duration_seconds_sum") ((codes "runbook", quoted r) ∷ [])
        (nanoseconds sum)
    ∷ sample (codes "remediation_duration_seconds_count") ((codes "runbook", quoted r) ∷ [])
        (count total)
    ∷ []

unfoldable pub histogram_rows : ByteMap Histogram → List Bytes → List Row
histogram_rows m [] = []
histogram_rows m (r ∷ rs) =
    let h = or_new (find r m) in
    bucket_rows r h.buckets h.counts ++ (closing_rows r h.sum h.total ++ histogram_rows m rs)

abbrev all_histogram_rows : ByteMap Histogram → List Bytes → List Row
all_histogram_rows m [] = closing_rows (codes "none") 0 0
all_histogram_rows m (r ∷ rs) = histogram_rows m (r ∷ rs)

-- `RenderPrometheus`, at a time since the start.
unfoldable pub render_prometheus : ℕ → Metrics → List Row
render_prometheus uptime m =
    action_rows m.actions_total
    ++ ((help (codes "remediation_duration_seconds")
          ∷ type (codes "remediation_duration_seconds") (codes "histogram")
          ∷ all_histogram_rows m.duration_histograms (sorted_keys m.duration_histograms))
        ++ (resource_rows (codes "remediation_precheck_failures_total") m.precheck_failures_total
            ++ (resource_rows (codes "remediation_rollbacks_total") m.rollbacks_total
                ++ (resource_rows (codes "remediation_damping_tripped_total")
                      m.damping_tripped_total
                    ++ (help (codes "remediation_daemon_uptime_seconds")
                        ∷ type (codes "remediation_daemon_uptime_seconds") (codes "gauge")
                        ∷ sample (codes "remediation_daemon_uptime_seconds") [] (nanoseconds uptime)
                        ∷ [])))))
