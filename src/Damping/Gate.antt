-- ===== src/Damping/Gate.antt =====
-- What each operation of the damping controller does to the state of a resource.
use autonomous_remediation_e.Prelude.{
  ℕ, ◌+◌, ◌≤◌, ◌<◌, ◌≡◌, refl, subst, Bool, String, List, [], ◌∷◌, ◌++◌, none, some, str_eq,
  str_eq_iff, ltb, if◌then◌else◌, keep, arith, Bool-cases, Option-cases, inl, inr, last?,
}
use autonomous_remediation_e.Prelude.Assoc.{lookup, insert, lookup-insert}
use autonomous_remediation_e.Damping.{
  Controller, ResourceState, Reason, GateReadings, state_of, save_locked, trip_locked, trip, breach,
  count_within, clear_expired, judge, can_execute, record_execution_at, window_10min, window_1hour,
  default_cooldown, default_quarantine_duration, day,
}

-- The executions on record for a resource.
unfoldable pub executions_of : String → Controller → List ℕ
executions_of resource c = (state_of resource c).executions

pub save_locked-states : (w : Bool) (c : Controller) → (save_locked w c).states ≡ c.states
unfolding save_locked
save_locked-states w c = ground arith

-- The state of `j` after that of `k` is replaced.
pub state_of-insert :
    (w : Bool) (k j : String) (st : ResourceState) (c : Controller)
    → state_of j (save_locked w (record c { states = insert k st c.states }))
      ≡ (if str_eq k j then st else state_of j c)
unfolding state_of
state_of-insert w k j st c = ground (
  arith,
  save_locked-states w (record c { states = insert k st c.states }),
  lookup-insert k j st c.states,
)

module _ (k j : String) (c : Controller) where
  -- Replacing the state of `k` by one with the same executions leaves the executions of all.
  same_executions :
      (w : Bool) (st : ResourceState)
      → st.executions ≡ (state_of k c).executions
      → executions_of j (save_locked w (record c { states = insert k st c.states }))
        ≡ executions_of j c
  unfolding executions_of
  same_executions w st e =
      rw (state_of-insert w k j st c, executions_of)
        (elim (Bool-cases (str_eq k j)) [
          | inl same ↦
              rw same
                (subst (λ x. st.executions ≡ (state_of x c).executions) ((str_eq_iff k j).0 same) e)
          | inr differ ↦ rw differ
        ])

  trip_locked-executions :
      (now d : ℕ) (w : Bool) (reason : Reason)
      → executions_of j (save_locked w (trip_locked now k d reason c)) ≡ executions_of j c
  unfolding trip_locked
  trip_locked-executions now d w reason = same_executions w _ refl

  clear_expired-executions :
      (w : Bool) (st : ResourceState)
      → lookup k c.states ≡ some st
      → executions_of j (clear_expired k w st c) ≡ executions_of j c
  unfolding clear_expired state_of
  clear_expired-executions w st e = elim (Bool-cases st.tripped) [
    | inl tripped ↦ rw tripped (same_executions w _ (rw (e, state_of)))
    | inr clear ↦ rw clear
  ]

judge-executions :
    (r : GateReadings) (k j : String) (st : ResourceState) (c : Controller)
    → lookup k c.states ≡ some st
    → executions_of j (judge r k st c).0 ≡ executions_of j c
unfolding judge
judge-executions r k j st c e =
    let c' = clear_expired k r.reset_written st c in
    let cleared = clear_expired-executions k j c r.reset_written st e in
    let trips =
      trip_locked-executions k j c' r.trip_now default_quarantine_duration r.trip_written in
    elim (Option-cases (breach r.now st.executions)) [
      | inl fine ↦ ground (arith, cleared)
      | inr (reason, bad) ↦ ground (arith, cleared, trips reason)
    ]

-- `CanExecute` changes the executions of no resource.
pub can_execute-executions :
    (r : GateReadings) (k j : String) (c : Controller)
    → executions_of j (can_execute r k c).0 ≡ executions_of j c
unfolding can_execute
can_execute-executions r k j c = elim (Option-cases (lookup k c.states)) [
  | inl unknown ↦ rw (unknown, can_execute)
  | inr (st, e) ↦ rw (e, can_execute) (judge-executions r k j st c e)
]

pub breach-nil : (now : ℕ) → breach now [] ≡ none
unfolding breach count_within
breach-nil now = refl

judge-breach :
    (r : GateReadings) (k : String) (st : ResourceState) (c : Controller)
    → (judge r k st c).1 ≡ none
    → breach r.now st.executions ≡ none
unfolding judge
judge-breach r k st c h = ground arith

-- A resource that passes `CanExecute` has executions within the limits.
pub can_execute-breach :
    (r : GateReadings) (k : String) (c : Controller)
    → (can_execute r k c).1 ≡ none
    → breach r.now (executions_of k c) ≡ none
unfolding can_execute executions_of state_of
can_execute-breach r k c h = elim (Option-cases (lookup k c.states)) [
  | inl unknown ↦ rw (unknown, executions_of, state_of) (breach-nil r.now)
  | inr (st, e) ↦ rw (e, executions_of, state_of) (judge-breach r k st c (rw (e, can_execute) at h))
]

-- What `breach` leaves: fewer than 2 executions in ten minutes and than 4 in an hour, and the
-- last one the cooldown ago.
pub breach-none :
    (now : ℕ) (xs : List ℕ)
    → breach now xs ≡ none
    → (count_within now window_10min xs < 2)
      × (count_within now window_1hour xs < 4)
      × ((t : ℕ) → last? xs ≡ some t → t + default_cooldown ≤ now)
unfolding breach
breach-none now xs h = (ground arith, ground arith, λ t e. ground arith)

pub trip-executions :
    (now : ℕ) (w : Bool) (k j : String) (d : ℕ) (c : Controller)
    → executions_of j (trip now w k d c) ≡ executions_of j c
unfolding trip
trip-executions now w k j d c = trip_locked-executions k j c now _ w _

-- `RecordExecutionAt` appends the time for its resource, drops what is a day old, and leaves the
-- other resources.
pub record_execution_at-executions :
    (w : Bool) (k j : String) (t : ℕ) (c : Controller)
    → executions_of j (record_execution_at w k t c) ≡ (
        if str_eq k j
        then keep (λ e. ltb t (e + day)) (executions_of k c ++ (t ∷ []))
        else executions_of j c)
unfolding record_execution_at executions_of
record_execution_at-executions w k j t c =
    rw (state_of-insert w k j _ c, executions_of)
      (elim (Bool-cases (str_eq k j)) [ inl same ↦ rw same | inr differ ↦ rw differ ])
