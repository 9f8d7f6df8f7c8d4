-- ===== src/Ingress/Metrics/Kinds.antt =====
-- What the tests of `RecordRemediationResult` (internal/ingress/metrics.go) decide.
use autonomous_remediation_e.Prelude.{
  ◌≡◌, refl, ◌↔◌, ◌⊎◌, inl, inr, ap, sym, Bool, true, false, ◌||◌, [], ◌∷◌, ◌++◌, String, Bytes,
  bytes_eq_iff, codes, arith, Bool-cases,
}
use autonomous_remediation_e.Fsm.{
  ExecutionState, precheck_failed, rolling_back, rolled_back, state_eq,
}
use autonomous_remediation_e.Drain.{starts_with, contains}
use autonomous_remediation_e.Engine.{Failure, RemediationResult}
use autonomous_remediation_e.Ingress.Metrics.{
  error_text, is_precheck_failure, is_rollback, is_damping_trip,
}

-- A test that tells which results have a property.
abbrev pub Decides : (RemediationResult → Type 0) → (RemediationResult → Bool) → Type 0
Decides P test = (r : RemediationResult) → (test r ≡ true) ↔ P r

pub both_decide : {P : Type 0} (a b : Bool) → ((a ≡ true) ↔ P) → ((b ≡ true) ↔ P) → a ≡ b
both_decide true b p q = sym (q.1 (p.0 refl))
both_decide false true p q = p.1 (q.0 refl)
both_decide false false p q = refl

-- A word stands in a text.
abbrev pub Names : Bytes → Bytes → Type 0
Names word text = (before : Bytes) × (after : Bytes) × (text ≡ before ++ (word ++ after))

abbrev pub IsRolledBack : RemediationResult → Type 0
IsRolledBack r =
    (r.rolled_back ≡ true) ⊎ (r.final_state ≡ rolled_back) ⊎ (r.final_state ≡ rolling_back)

abbrev pub NamesDamping : (Failure → String) → RemediationResult → Type 0
NamesDamping message r =
    Names (codes "FLAP_DAMPING") (error_text message r.error)
    ⊎ Names (codes "damping") (error_text message r.error)

starts_with_self : (p rest : Bytes) → starts_with p (p ++ rest) ≡ true
unfolding starts_with
starts_with_self [] rest = refl
starts_with_self (c ∷ p) rest = ground (arith, starts_with_self p rest)

starts_with-Names : (p s : Bytes) → starts_with p s ≡ true → (rest : Bytes) × (s ≡ p ++ rest)
unfolding starts_with
starts_with-Names [] s h = (s, refl)
starts_with-Names (c ∷ p) [] h = cc h
starts_with-Names (c ∷ p) (d ∷ s) h =
    let (rest, e) = starts_with-Names p s (ground arith) in
    let same : d ≡ c = ground arith in (rest, λ i. same i ∷ e i)

contains-here : (p s : Bytes) → starts_with p s ≡ true → contains p s ≡ true
unfolding contains starts_with
contains-here [] [] h = (bytes_eq_iff [] []).1 refl
contains-here (c ∷ p) [] h = cc h
contains-here p (d ∷ s) h = rw h refl

contains-Names : (p s : Bytes) → contains p s ≡ true → Names p s
unfolding contains
contains-Names p [] h = ([], [], rw ((bytes_eq_iff p []).0 h) refl)
contains-Names p (c ∷ s) h = elim (Bool-cases (starts_with p (c ∷ s))) [
  | inl e ↦ let (rest, same) = starts_with-Names p (c ∷ s) e in ([], rest, same)
  | inr e ↦
      let (before, after, same) = contains-Names p s (ground (arith, h, e)) in
      (c ∷ before, after, ap (λ x. c ∷ x) same)
]

contains-there : (p before after : Bytes) → contains p (before ++ (p ++ after)) ≡ true
unfolding contains
contains-there p [] after = contains-here p (p ++ after) (starts_with_self p after)
contains-there p (c ∷ before) after = ground (arith, contains-there p before after)

-- `Contains` finds a word exactly where it stands.
contains_iff : (p s : Bytes) → (contains p s ≡ true) ↔ Names p s
contains_iff p s = (contains-Names p s, λ (before, after, e). rw e (contains-there p before after))

pub precheck_failure-Decides : Decides (λ r. r.final_state ≡ precheck_failed) is_precheck_failure
unfolding is_precheck_failure
precheck_failure-Decides r = is_failed r.final_state
  where
    is_failed : (s : ExecutionState) → (state_eq s precheck_failed ≡ true) ↔ (s ≡ precheck_failed)
    is_failed s = unfold state_eq in ground arith

pub rollback-Decides : Decides IsRolledBack is_rollback
unfolding is_rollback
rollback-Decides r = of_state r.rolled_back r.final_state
  where
    of_state :
        (b : Bool) (s : ExecutionState)
        → ((b || state_eq s rolled_back || state_eq s rolling_back) ≡ true)
          ↔ ((b ≡ true) ⊎ (s ≡ rolled_back) ⊎ (s ≡ rolling_back))
    of_state b s = unfold state_eq in ground arith

pub damping_trip-Decides :
    (message : Failure → String) → Decides (NamesDamping message) (is_damping_trip message)
unfolding is_damping_trip
damping_trip-Decides message r =
    let text = error_text message r.error in
    let upper = contains_iff (codes "FLAP_DAMPING") text in
    let lower = contains_iff (codes "damping") text in
    (
      λ h. elim (Bool-cases (contains (codes "FLAP_DAMPING") text)) [
        | inl e ↦ inl (upper.0 e)
        | inr e ↦ inr (lower.0 (rw e at h))
      ],
      λ names. elim names [
        | inl there ↦ rw (upper.1 there) refl
        | inr there ↦ elim (Bool-cases (contains (codes "FLAP_DAMPING") text)) [
          | inl e ↦ rw e refl
          | inr e ↦ rw (e, lower.1 there) refl
        ]
      ],
    )
