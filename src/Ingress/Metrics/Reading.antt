-- ===== src/Ingress/Metrics/Reading.antt =====
-- What a reader of the text of internal/ingress/metrics.go finds in it.
use autonomous_remediation_e.Prelude.{
  ℕ, ◌≡◌, refl, ◌∙◌, ap, Bool, true, false, ◌||◌, List, [], ◌∷◌, Option, none, some, Bytes,
  bytes_eq, bytes_eq_iff, if◌then◌else◌, map, arith, Bool-cases, inl, inr,
}
use autonomous_remediation_e.Ingress.Metrics.{ByteMap, find, count_of}
use autonomous_remediation_e.Ingress.Metrics.Render.{
  quoted, count, Row, sample, insert_key, sort_keys, keys, sorted_keys, resource_row, resource_rows,
  rows_or_none,
}

-- The value of the first row with this one label.
pub shown : Bytes → List Row → Option ℕ
shown k [] = none
shown k (sample name ((label, quoted j) ∷ []) (count n) ∷ ls) =
    if bytes_eq j k then some n else shown k ls
shown k (_ ∷ ls) = shown k ls

pub has : Bytes → List Bytes → Bool
has k [] = false
has k (j ∷ js) = bytes_eq j k || has k js

has-insert_key :
    (k j : Bytes) (js : List Bytes) → has k (insert_key j js) ≡ (bytes_eq j k || has k js)
unfolding has insert_key
has-insert_key k j [] = refl
has-insert_key k j (i ∷ is) = ground (arith, has-insert_key k j is)

has-sort_keys : (k : Bytes) (ks : List Bytes) → has k (sort_keys ks) ≡ has k ks
unfolding has sort_keys
has-sort_keys k [] = refl
has-sort_keys k (j ∷ js) = ground (arith, has-insert_key k j (sort_keys js), has-sort_keys k js)

-- A key is listed just where the map has it.
pub listed : Bool → ByteMap ℕ → Bytes → Option ℕ
listed true m k = some (count_of k m)
listed false m k = none

listed-keys : (k : Bytes) (m : ByteMap ℕ) → listed (has k (keys m)) m k ≡ find k m
unfolding listed has keys find count_of
listed-keys k [] = refl
listed-keys k ((j, v) ∷ m) = elim (Bool-cases (bytes_eq j k)) [
  | inl e ↦ ground arith
  | inr e ↦ ground (arith, listed-keys k m)
]

shown-rows :
    (name k : Bytes) (m : ByteMap ℕ) (ks : List Bytes)
    → shown k (map (resource_row name m) ks) ≡ listed (has k ks) m k
unfolding shown has listed
shown-rows name k m [] = refl
shown-rows name k m (j ∷ js) = elim (Bool-cases (bytes_eq j k)) [
  | inl e ↦ let same : j ≡ k = (bytes_eq_iff j k).0 e in rw e (ap (λ i. some (count_of i m)) same)
  | inr e ↦ rw e (shown-rows name k m js)
]

rows_or_none-cons :
    (blank : Row) (f : Bytes → Row) (j : Bytes) (js : List Bytes)
    → rows_or_none blank (map f (insert_key j js)) ≡ map f (insert_key j js)
unfolding rows_or_none insert_key
rows_or_none-cons blank f j [] = refl
rows_or_none-cons blank f j (i ∷ is) = ground arith

-- In the rows of a counter that has counted something, a resource is shown with the value of its
-- counter, and one that has no counter is not shown.
pub resource_rows-shown :
    (name j k : Bytes) (n : ℕ) (m : ByteMap ℕ)
    → shown k (resource_rows name ((j, n) ∷ m)) ≡ find k ((j, n) ∷ m)
unfolding resource_rows sorted_keys sort_keys keys shown
resource_rows-shown name j k n m =
    rw (rows_or_none-cons _ (resource_row name ((j, n) ∷ m)) j (sort_keys (keys m))) (
      shown-rows name k ((j, n) ∷ m) (insert_key j (sort_keys (keys m)))
      ∙ ap (λ b. listed b ((j, n) ∷ m) k) (has-sort_keys k (keys ((j, n) ∷ m)))
      ∙ listed-keys k ((j, n) ∷ m))
