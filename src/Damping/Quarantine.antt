-- ===== src/Damping/Quarantine.antt =====
-- The circuit breaker of internal/damping/damping.go: when a resource is refused, for how long,
-- and what survives a restart.
use autonomous_remediation_e.Prelude.{
  ℕ, ◌+◌, ◌*◌, ◌^◌, ◌≤◌, ◌<◌, List, count_if, last?, leb, some, ◌≡◌, ◌≢◌, ◌↔◌, refl, ◌∙◌, Bool,
  true, false, ◌&&◌, String, none, str_eq, ltb, ◌==◌, if◌then◌else◌, arith, Bool-cases,
  Option-cases, inl, inr,
}
use autonomous_remediation_e.Prelude.Assoc.{lookup, insert}
use autonomous_remediation_e.Damping.{
  Controller, ResourceState, GateReadings, empty, state_of, save_locked, trip_locked, trip, breach,
  clear_expired, judge, count_within, can_execute, default_quarantine_duration,
}
use autonomous_remediation_e.Damping.Gate.{executions_of, breach-nil, breach-none, state_of-insert}

-- Whether the quarantine of a resource has not expired.
unfoldable pub is_quarantined : ℕ → String → Controller → Bool
is_quarantined now k c = (state_of k c).tripped && ltb now (state_of k c).quarantine_until

judge_iff :
    (r : GateReadings) (k : String) (st : ResourceState) (c : Controller)
    → ((judge r k st c).1 ≡ none) ↔ (
        ((st.tripped && ltb r.now st.quarantine_until) ≡ false)
        × (breach r.now st.executions ≡ none))
unfolding judge
judge_iff r k st c = ground arith

can_execute-breach_iff :
    (r : GateReadings) (k : String) (c : Controller)
    → ((can_execute r k c).1 ≡ none)
      ↔ ((is_quarantined r.now k c ≡ false) × (breach r.now (executions_of k c) ≡ none))
unfolding can_execute is_quarantined executions_of state_of
can_execute-breach_iff r k c = elim (Option-cases (lookup k c.states)) [
  | inl unknown ↦
      rw (unknown, can_execute, is_quarantined, executions_of, state_of)
        ((λ e. (refl, breach-nil r.now)), λ e. refl)
  | inr (st, e) ↦ rw (e, can_execute, is_quarantined, executions_of, state_of) (judge_iff r k st c)
]

-- The executions keep to the limits: fewer than 2 of them in the last 10 minutes, fewer than 4 in
-- the last hour, and the last one 5 minutes ago.
abbrev pub KeepsLimits : ℕ → List ℕ → Type 0
KeepsLimits now xs =
    (count_if (λ t. leb now (t + 600 * 10 ^ 9)) xs < 2)
    × (count_if (λ t. leb now (t + 3600 * 10 ^ 9)) xs < 4)
    × ((t : ℕ) → last? xs ≡ some t → t + 300 * 10 ^ 9 ≤ now)

breach_iff : (now : ℕ) (xs : List ℕ) → (breach now xs ≡ none) ↔ KeepsLimits now xs
unfolding count_within breach
breach_iff now xs = (
  breach-none now xs,
  λ (few, some_more, last). elim (Option-cases (last? xs)) [
    | inl unused ↦ rw (unused, breach) (ground arith)
    | inr (t, e) ↦ let cooled = last t e in rw (e, breach) (ground arith)
  ],
)

-- `CanExecute` lets a resource through exactly when it is in no quarantine at that time, has fewer
-- than 2 executions in the last 10 minutes and fewer than 4 in the last hour, and its last one was
-- at least 5 minutes ago.
pub can_execute_iff :
    (r : GateReadings) (k : String) (c : Controller)
    → ((can_execute r k c).1 ≡ none)
      ↔ ((is_quarantined r.now k c ≡ false) × KeepsLimits r.now (executions_of k c))
can_execute_iff r k c =
    let (to, from) = can_execute-breach_iff r k c in
    let (limits, breaches) = breach_iff r.now (executions_of k c) in
    (λ h. ((to h).0, limits (to h).1), λ (free, kept). from (free, breaches kept))

-- While a quarantine lasts, `CanExecute` refuses and changes nothing: refused calls do not
-- prolong it.
pub can_execute_quarantined :
    (r : GateReadings) (k : String) (c : Controller)
    → is_quarantined r.now k c ≡ true
    → ((can_execute r k c).0 ≡ c) × ((can_execute r k c).1 ≢ none)
unfolding can_execute is_quarantined state_of judge
can_execute_quarantined r k c h = ground arith

quarantined-insert :
    (w : Bool) (k j : String) (st : ResourceState) (at : ℕ) (c : Controller)
    → is_quarantined at j (save_locked w (record c { states = insert k st c.states }))
      ≡ (if str_eq k j then st.tripped && ltb at st.quarantine_until else is_quarantined at j c)
unfolding is_quarantined
quarantined-insert w k j st at c =
    rw (state_of-insert w k j st c, is_quarantined)
      (elim (Bool-cases (str_eq k j)) [ inl same ↦ rw same | inr differ ↦ rw differ ])

-- `Trip` quarantines its resource until `duration` later, or until an hour later where that is
-- 0, and leaves the quarantine of every other resource as it was.
pub trip-is_quarantined :
    (now : ℕ) (written : Bool) (k j : String) (d at : ℕ) (c : Controller)
    → is_quarantined at j (trip now written k d c) ≡ (
        if str_eq k j
        then ltb at (now + (if d == 0 then default_quarantine_duration else d))
        else is_quarantined at j c)
unfolding trip trip_locked
trip-is_quarantined now written k j d at c = quarantined-insert written k j _ at c

clear_expired-is_quarantined :
    (w : Bool) (k j : String) (st : ResourceState) (at : ℕ) (c : Controller)
    → str_eq k j ≡ false
    → is_quarantined at j (clear_expired k w st c) ≡ is_quarantined at j c
unfolding clear_expired
clear_expired-is_quarantined w k j st at c differ = elim (Bool-cases st.tripped) [
  | inl tripped ↦
      let st' = record st { tripped = false; quarantine_until = 0; trip_reason = empty } in
      rw tripped (rw differ at (quarantined-insert w k j st' at c))
  | inr clear ↦ rw clear
]

judge-breach_trips :
    (r : GateReadings) (k j : String) (st : ResourceState) (at : ℕ) (c : Controller)
    → (st.tripped && ltb r.now st.quarantine_until) ≡ false
    → breach r.now st.executions ≢ none
    → is_quarantined at j (judge r k st c).0 ≡ (
        if str_eq k j
        then ltb at (r.trip_now + default_quarantine_duration)
        else is_quarantined at j c)
unfolding judge trip_locked
judge-breach_trips r k j st at c free bad = elim (Option-cases (breach r.now st.executions)) [
  | inl fine ↦ absurd (bad fine)
  | inr (reason, e) ↦
      let c' = clear_expired k r.reset_written st c in
      let st' = record (state_of k c') {
        tripped = true;
        quarantine_until = r.trip_now + default_quarantine_duration;
        trip_reason = reason;
      } in
      let after = quarantined-insert r.trip_written k j st' at c' in
      elim (Bool-cases (str_eq k j)) [
        | inl same ↦ rw (free, e, same) (rw same at after)
        | inr differ ↦
            rw (free, e, differ)
              ((rw differ at after)
                ∙ clear_expired-is_quarantined r.reset_written k j st at c differ)
      ]
]

-- A resource that is in no quarantine and is refused for a breach is quarantined for an hour
-- from the time of the trip. The quarantine of every other resource stays as it was.
pub can_execute-breach_trips :
    (r : GateReadings) (k j : String) (at : ℕ) (c : Controller)
    → is_quarantined r.now k c ≡ false
    → breach r.now (executions_of k c) ≢ none
    → is_quarantined at j (can_execute r k c).0 ≡ (
        if str_eq k j
        then ltb at (r.trip_now + default_quarantine_duration)
        else is_quarantined at j c)
unfolding can_execute is_quarantined executions_of state_of
can_execute-breach_trips r k j at c free bad = elim (Option-cases (lookup k c.states)) [
  | inl unknown ↦ absurd (bad (rw (unknown, executions_of, state_of) (breach-nil r.now)))
  | inr (st, e) ↦
      rw (e, can_execute)
        (judge-breach_trips r k j st at c (rw (e, is_quarantined, state_of) at free)
          (rw (e, executions_of, state_of) at bad))
]
