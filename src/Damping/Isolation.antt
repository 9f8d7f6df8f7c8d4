-- ===== src/Damping/Isolation.antt =====
-- What the operations of internal/damping/damping.go leave alone, and what survives a restart.
use autonomous_remediation_e.Prelude.{
  ℕ, ◌≡◌, ◌≢◌, ◌∙◌, sym, ap, subst, none, Option, Bool, true, false, ◌&&◌, String, some, str_eq,
  ltb, arith, Bool-cases, Option-cases, inl, inr,
}
use autonomous_remediation_e.Prelude.Assoc.{lookup, insert, erase, lookup-insert, lookup-erase}
use autonomous_remediation_e.Damping.{
  Controller, StateFile, ResourceState, GateReadings, default_quarantine_duration, state_of,
  new_controller, load, save_locked, trip_locked, trip, breach, clear_expired, judge, can_execute,
  record_execution_at, reset, get_status,
}
use autonomous_remediation_e.Damping.Gate.{executions_of, breach-nil, save_locked-states}
use autonomous_remediation_e.Damping.Quarantine.{is_quarantined}

module _ (k j : String) (differ : str_eq k j ≡ false) where
  status-insert :
      (w : Bool) (st : ResourceState) (c : Controller)
      → get_status j (save_locked w (record c { states = insert k st c.states })) ≡ get_status j c
  unfolding get_status
  status-insert w st c =
      rw (save_locked-states w (record c { states = insert k st c.states }))
        (rw differ at (lookup-insert k j st c.states))

  status-clear :
      (w : Bool) (st : ResourceState) (c : Controller)
      → get_status j (clear_expired k w st c) ≡ get_status j c
  unfolding clear_expired
  status-clear w st c = elim (Bool-cases st.tripped) [
    | inl tripped ↦ rw tripped (status-insert w _ c)
    | inr clear ↦ rw clear
  ]

  status-judge :
      (r : GateReadings) (st : ResourceState) (c : Controller)
      → get_status j (judge r k st c).0 ≡ get_status j c
  unfolding judge trip_locked
  status-judge r st c =
      let c' = clear_expired k r.reset_written st c in
      let cleared = status-clear r.reset_written st c in
      elim (Bool-cases (st.tripped && ltb r.now st.quarantine_until)) [
        | inl frozen ↦ rw frozen
        | inr free ↦ elim (Option-cases (breach r.now st.executions)) [
          | inl fine ↦ rw (free, fine) cleared
          | inr (reason, e) ↦ rw (free, e) (status-insert r.trip_written _ c' ∙ cleared)
        ]
      ]

  status-can_execute :
      (r : GateReadings) (c : Controller) → get_status j (can_execute r k c).0 ≡ get_status j c
  unfolding can_execute
  status-can_execute r c = elim (Option-cases (lookup k c.states)) [
    | inl unknown ↦ rw (unknown, can_execute)
    | inr (st, e) ↦ rw (e, can_execute) (status-judge r st c)
  ]

-- The operations on one resource leave the state of every other resource.
pub get_status-other :
    (k j : String) (c : Controller)
    → str_eq k j ≡ false
    → ((r : GateReadings) → get_status j (can_execute r k c).0 ≡ get_status j c)
      × ((w : Bool) (t : ℕ) → get_status j (record_execution_at w k t c) ≡ get_status j c)
      × ((now : ℕ) (w : Bool) (d : ℕ) → get_status j (trip now w k d c) ≡ get_status j c)
      × ((w : Bool) → get_status j (reset w k c) ≡ get_status j c)
unfolding record_execution_at trip trip_locked reset
get_status-other k j c differ = (
  λ r. status-can_execute k j differ r c,
  λ w t. status-insert k j differ w _ c,
  λ now w d. status-insert k j differ w _ c,
  λ w. status-reset w,
)
  where
    status-reset : (w : Bool) → get_status j (reset w k c) ≡ get_status j c
    status-reset w =
        unfold get_status in
        rw (save_locked-states w (record c { states = erase k c.states }))
          (rw differ at (lookup-erase k j c.states))

save_locked-restart :
    (c : Controller)
    → str_eq c.state_path "" ≡ false
    → let c' = save_locked true c in new_controller c.state_path c'.file ≡ some c'
unfolding new_controller load save_locked
save_locked-restart c p = ground arith

save_locked-restarts :
    (path : String) (c : Controller)
    → c.state_path ≡ path
    → str_eq path "" ≡ false
    → let c' = save_locked true c in new_controller path c'.file ≡ some c'
save_locked-restarts path c e p =
    subst
      (λ s.
        str_eq s "" ≡ false
        → new_controller s (save_locked true c).file ≡ some (save_locked true c))
      e (save_locked-restart c) p

clear_expired-path :
    (w : Bool) (k : String) (st : ResourceState) (c : Controller)
    → (clear_expired k w st c).state_path ≡ c.state_path
unfolding clear_expired save_locked
clear_expired-path w k st c = ground arith

judge-saved :
    (r : GateReadings) (k : String) (st : ResourceState) (c : Controller)
    → str_eq c.state_path "" ≡ false
    → r.trip_written ≡ true
    → (st.tripped && ltb r.now st.quarantine_until) ≡ false
    → breach r.now st.executions ≢ none
    → let c' = (judge r k st c).0 in new_controller c.state_path c'.file ≡ some c'
unfolding judge trip_locked
judge-saved r k st c p written free bad = elim (Option-cases (breach r.now st.executions)) [
  | inl fine ↦ absurd (bad fine)
  | inr (reason, e) ↦
      let path = clear_expired-path r.reset_written k st c in
      let c1 =
        trip_locked r.trip_now k default_quarantine_duration reason
          (clear_expired k r.reset_written st c) in
      rw (free, e, written) (save_locked-restarts c.state_path c1 path p)
]

-- A gate that trips a circuit and writes the file leaves there what a restart finds.
pub can_execute-saved :
    (r : GateReadings) (k : String) (c : Controller)
    → str_eq c.state_path "" ≡ false
    → r.trip_written ≡ true
    → is_quarantined r.now k c ≡ false
    → breach r.now (executions_of k c) ≢ none
    → let c' = (can_execute r k c).0 in new_controller c.state_path c'.file ≡ some c'
unfolding can_execute is_quarantined executions_of state_of
can_execute-saved r k c p written free bad = elim (Option-cases (lookup k c.states)) [
  | inl unknown ↦ absurd (bad (rw (unknown, executions_of, state_of) (breach-nil r.now)))
  | inr (st, e) ↦
      rw (e, can_execute)
        (judge-saved r k st c p written (rw (e, is_quarantined, state_of) at free)
          (rw (e, executions_of, state_of) at bad))
]

pub new_controller-path :
    (path : String) (file : StateFile) (c : Controller)
    → new_controller path file ≡ some c
    → c.state_path ≡ path
unfolding new_controller
new_controller-path path file c h = elim (Bool-cases (str_eq path "")) [
  | inl none_given ↦ ap state_path_of (sym (rw none_given at h))
  | inr given ↦ elim (Option-cases (load file)) [
    | inl broken ↦ cc (rw (given, broken) at h)
    | inr (m, e) ↦ ap state_path_of (sym (rw (given, e) at h))
  ]
]
  where
    state_path_of : Option Controller → String
    state_path_of none = path
    state_path_of (some c) = c.state_path

-- A save that succeeds is what a restart finds: a controller that is built over the file, for the
-- same path, has the states that the operation left. Without a path nothing is kept.
pub new_controller-saved :
    (c : Controller)
    → str_eq c.state_path "" ≡ false
    → ((k : String) (t : ℕ)
        → let c' = record_execution_at true k t c in new_controller c.state_path c'.file ≡ some c')
      × ((now : ℕ) (k : String) (d : ℕ)
          → let c' = trip now true k d c in new_controller c.state_path c'.file ≡ some c')
      × ((k : String) → let c' = reset true k c in new_controller c.state_path c'.file ≡ some c')
unfolding record_execution_at trip trip_locked reset
new_controller-saved c p = (
  λ k t. save_locked-restart _ p,
  λ now k d. save_locked-restart _ p,
  λ k. save_locked-restart _ p,
)
