-- ===== src/Fsm/History.antt =====
-- What the history of a state machine (internal/model/state.go) holds, after any attempts at
-- transitions.
use autonomous_remediation_e.Prelude.{
  ℕ, suc, ◌+◌, ◌≤◌, ◌≡◌, refl, true, false, String, List, [], ◌∷◌, ◌++◌, none, some, arith, length,
  length-append, Bool-cases, inl, inr, ◌≢◌, ◌⊎◌,
}
use autonomous_remediation_e.Fsm.{
  ExecutionState, other, StateTransition, Fsm, is_valid_state, can_transition, is_terminal, new_fsm,
  transition, transitions,
}
use autonomous_remediation_e.Fsm.Monotone.{rank, can_transition-rank, can_transition-is_terminal}

-- The entries lead from `s` to `t`, each from where the one before ended, by permitted
-- transitions only.
abbrev pub Linked : ExecutionState → List StateTransition → ExecutionState → Type 0
Linked s [] t = s ≡ t
Linked s (e ∷ es) t = (e.from ≡ s) × (can_transition s e.to ≡ true) × Linked e.to es t

-- A history begins with the entry of the start, and the others lead from there to `t`.
abbrev pub IsHistory : ExecutionState → List StateTransition → ExecutionState → Type 0
IsHistory s [] t = ⊥
IsHistory s (e ∷ es) t = (e.from ≡ other "") × (e.to ≡ s) × Linked s es t

Linked-append :
    (s t : ExecutionState) (es : List StateTransition) (e : StateTransition)
    → Linked s es t
    → e.from ≡ t
    → can_transition t e.to ≡ true
    → Linked s (es ++ e ∷ []) e.to
Linked-append s t [] e h p q = ground arith
Linked-append s t (x ∷ es) e h p q = ground (arith, Linked-append x.to t es e h.2 p q)

pub IsHistory-append :
    (s t : ExecutionState) (es : List StateTransition) (e : StateTransition)
    → IsHistory s es t
    → e.from ≡ t
    → can_transition t e.to ≡ true
    → IsHistory s (es ++ e ∷ []) e.to
IsHistory-append s t [] e h p q = absurd h
IsHistory-append s t (x ∷ es) e h p q = (h.0, h.1, Linked-append s t es e h.2 p q)

Linked-length :
    (s t : ExecutionState) (es : List StateTransition) → Linked s es t → rank s + length es ≤ rank t
Linked-length s t [] h = ground arith
Linked-length s t (e ∷ es) h =
    ground (arith, can_transition-rank s e.to h.1, Linked-length e.to t es h.2)

Linked-rank :
    (s t : ExecutionState) (es : List StateTransition) → rank s ≤ 7 → Linked s es t → rank t ≤ 7
Linked-rank s t [] r h = ground arith
Linked-rank s t (e ∷ es) r h = Linked-rank e.to t es (can_transition-rank s e.to h.1).3 h.2

pub rank-le : (s : ExecutionState) → rank s ≤ 7
unfolding rank
rank-le s = ground arith

pub transition-IsHistory :
    (now : ℕ) (s to : ExecutionState) (reason : String) (m : Fsm)
    → IsHistory s m.history m.current
    → let m' = (transition now to reason m).0 in IsHistory s m'.history m'.current
unfolding transition
transition-IsHistory now s to reason m h = elim (Bool-cases (is_valid_state to)) [
  | inr bad ↦ rw bad h
  | inl good ↦ elim (Bool-cases (can_transition m.current to)) [
    | inr no_edge ↦ rw (good, no_edge) h
    | inl edge ↦ rw (good, edge) (IsHistory-append s m.current m.history _ h refl edge)
  ]
]

pub transitions-IsHistory :
    (ts : List (ℕ × ExecutionState × String)) (s : ExecutionState) (m : Fsm)
    → IsHistory s m.history m.current
    → let m' = transitions ts m in IsHistory s m'.history m'.current
unfolding transitions
transitions-IsHistory [] s m h = h
transitions-IsHistory ((now, to, reason) ∷ ts) s m h =
    transitions-IsHistory ts s (transition now to reason m).0
      (transition-IsHistory now s to reason m h)

new_fsm-IsHistory :
    (now : ℕ) (s : ExecutionState) (m : Fsm)
    → new_fsm now s ≡ some m
    → IsHistory s m.history m.current
unfolding new_fsm
new_fsm-IsHistory now s m e = ground arith

IsHistory-length :
    (s t : ExecutionState) (es : List StateTransition) → IsHistory s es t → length es + rank s ≤ 8
IsHistory-length s t [] h = absurd h
IsHistory-length s t (x ∷ es) h = omega (arith, Linked-length s t es h.2, rank-le t)

-- Whatever transitions are attempted on a new machine, and whichever of them are refused: the
-- history begins with the initial state, is linked entry by entry through permitted transitions
-- to the current state, and holds 8 entries at most, less the rank of the initial state.
pub new_fsm-transitions :
    (now : ℕ) (s : ExecutionState) (ts : List (ℕ × ExecutionState × String)) {m : Fsm}
    → new_fsm now s ≡ some m
    → let m' = transitions ts m in
      IsHistory s m'.history m'.current × (length m'.history + rank s ≤ 8)
new_fsm-transitions now s ts {m} e =
    let linked = transitions-IsHistory ts s m (new_fsm-IsHistory now s m e) in
    (linked, IsHistory-length s _ _ linked)

-- An attempt either returns an error and leaves the machine as it was, or it starts in a state
-- that is not terminal, is permitted, returns no error, moves the machine to the target and
-- appends one entry.
pub transition_outcome :
    (now : ℕ) (to : ExecutionState) (reason : String) (m : Fsm)
    → let (m', err) = transition now to reason m in
      (err ≢ none) × (m' ≡ m)
      ⊎ (is_terminal m.current ≡ false)
        × (can_transition m.current to ≡ true)
        × (m'.current ≡ to)
        × (length m'.history ≡ suc (length m.history))
        × (err ≡ none)
unfolding transition
transition_outcome now to reason m = elim (Bool-cases (is_valid_state to)) [
  | inr bad ↦ rw bad (inl ((λ e. cc), refl))
  | inl good ↦ elim (Bool-cases (can_transition m.current to)) [
    | inr no_edge ↦ rw (good, no_edge) (inl ((λ e. cc), refl))
    | inl edge ↦
        rw (good, edge)
          (inr (
            can_transition-is_terminal m.current to edge,
            refl,
            refl,
            omega (arith, length-append {0} m.history),
            refl,
          ))
  ]
]
