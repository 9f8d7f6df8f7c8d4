-- ===== src/Ingress/Metrics/Counters.antt =====
-- Laws of the maps, the counters and the histograms of internal/ingress/metrics.go.
use autonomous_remediation_e.Prelude.{
  ℕ, ◌+◌, ◌%◌, ◌^◌, ◌≡◌, refl, List, [], ◌∷◌, some, Bytes, bytes_eq, bytes_eq_iff, leb,
  if◌then◌else◌, map, arith, Bool-cases, inl, inr,
}
use autonomous_remediation_e.Ingress.Metrics.{
  incremented, observe_buckets, ByteMap, find, put, count_of, bump,
}

pub incremented-mod : (n : ℕ) → incremented (n % 2 ^ 64) ≡ (n + 1) % 2 ^ 64
incremented-mod n = omega arith

module _ {ℓ} {V : Type ℓ} where
  pub find-put :
      (k j : Bytes) (v : V) (m : ByteMap V)
      → find k (put j v m) ≡ (if bytes_eq j k then some v else find k m)
  unfolding find put
  find-put k j v [] = refl
  find-put k j v ((i, w) ∷ m) =
      ground (arith, bytes_eq_iff j k, bytes_eq_iff i j, bytes_eq_iff i k, find-put k j v m)

pub count_of-bump :
    (k j : Bytes) (m : ByteMap ℕ)
    → count_of k (bump j m) ≡ (if bytes_eq j k then incremented (count_of k m) else count_of k m)
unfolding count_of bump
count_of-bump k j m = ground (arith, find-put k j (incremented (count_of j m)) m, bytes_eq_iff j k)

-- One observation, of buckets whose counts are a function of their bounds.
pub observe_buckets-map :
    (v : ℕ) (c : ℕ → ℕ) (bs : List ℕ)
    → observe_buckets v bs (map (λ b. c b % 2 ^ 64) bs)
      ≡ map (λ b. (if leb v b then c b + 1 else c b) % 2 ^ 64) bs
unfolding observe_buckets
observe_buckets-map v c [] = refl
observe_buckets-map v c (b ∷ bs) = elim (Bool-cases (leb v b)) [
  | inl e ↦ cc (e, incremented-mod (c b), observe_buckets-map v c bs)
  | inr e ↦ cc (e, observe_buckets-map v c bs)
]

pub map_pointwise : (f g : ℕ → ℕ) (bs : List ℕ) → ((b : ℕ) → f b ≡ g b) → map f bs ≡ map g bs
map_pointwise f g [] h = refl
map_pointwise f g (b ∷ bs) h = cc (h b, map_pointwise f g bs h)
