-- ===== src/Engine/Trail.antt =====
-- The entries that a call of `Remediate` (internal/engine/engine.go) leaves in the audit ledger.
use mathlib.Core.List.{append_assoc, append-nil}
use autonomous_remediation_e.Prelude.{
  ◌≡◌, ◌⊎◌, refl, sym, ◌∙◌, ap, true, false, ◌||◌, String, List, [], ◌∷◌, ◌++◌, map, Option, none,
  some, Bytes, codes, str_eq, inl, inr, Bool-cases,
}
use autonomous_remediation_e.Fsm.{
  ExecutionState, detected, evaluating, precheck_passed, precheck_failed, executing,
  postcheck_passed, committed, postcheck_failed, rolling_back, rolled_back, escalated,
}
use autonomous_remediation_e.Audit.{
  Line, blank, malformed, entry, Ledger, written, append, new_entry, write_line,
}
use autonomous_remediation_e.Damping
use autonomous_remediation_e.Lock.{Acquired, acquired, refused}
use autonomous_remediation_e.Host.{System}
use autonomous_remediation_e.Executor.{ExecutionResult}
use autonomous_remediation_e.Verifier.{CheckError}
use autonomous_remediation_e.Rollback.{WalRecord, JournalError, RollbackError}
use autonomous_remediation_e.Engine.{
  Alert, Runbook, State, Engine, Failure, EngineError, wal_error, Readings, Texts,
}
use autonomous_remediation_e.Engine.Steps.{state_text, Run, Call, transit, note, enter}
use autonomous_remediation_e.Engine.Settle.{Remediated, commit, reverted, revert}
use autonomous_remediation_e.Engine.Remediate.{
  alert_digest, conclude, execute_runbook, proceed, stage_runbook, conditioned, admit, gate_runbook,
  hold, lock_runbook, match_runbook, resolve, remediate,
}
use autonomous_remediation_e.Engine.Outcomes.{trail}

-- The states of the records in a file.
unfoldable pub states_in : List Line → List Bytes
states_in [] = []
states_in (blank ∷ ls) = states_in ls
states_in (malformed ∷ ls) = states_in ls
states_in (entry e ∷ ls) = e.state ∷ states_in ls

-- The states that a call logs, by its error: those that it went through, but none where the alert
-- is malformed, and ESCALATED as well where the staging failed.
unfoldable pub logged_trail : Option EngineError → List ExecutionState
logged_trail (some EngineError.malformed) = []
logged_trail (some (wal_error e)) = trail (some (wal_error e)) ++ escalated ∷ []
logged_trail e = trail e

-- The same readings, with writes to the ledger that all succeed.
abbrev pub kept : (ExecutionState → Bytes) → Readings → Readings
kept at rs = record rs {
  logged = λ s. record { timestamp = at s; outcome = written; synced = true };
}

abbrev texts_of : List ExecutionState → List Bytes
texts_of ss = map (λ s. codes (state_text s)) ss

states_in-append :
    (ls : List Line) (l : Line) → states_in (ls ++ l ∷ []) ≡ states_in ls ++ states_in (l ∷ [])
unfolding states_in
states_in-append [] l = refl
states_in-append (blank ∷ ls) l = states_in-append ls l
states_in-append (malformed ∷ ls) l = states_in-append ls l
states_in-append (entry e ∷ ls) l = ap (λ x. e.state ∷ x) (states_in-append ls l)

texts_of-append : (xs ys : List ExecutionState) → texts_of (xs ++ ys) ≡ texts_of xs ++ texts_of ys
texts_of-append [] ys = refl
texts_of-append (x ∷ xs) ys = ap (λ l. codes (state_text x) ∷ l) (texts_of-append xs ys)

-- The ledger is open and whole, and its records have the states `pre` and then `xs`.
record Entries (pre : List Bytes) (xs : List ExecutionState) (l : Ledger) : Type 0 where
  live : l.is_open ≡ true
  whole : l.file.torn ≡ false
  same : states_in l.file.lines ≡ pre ++ texts_of xs

append-Entries :
    (digest : Bytes → Bytes) (at resource runbook payload : Bytes) (s : ExecutionState)
    (pre : List Bytes) (xs : List ExecutionState) (l : Ledger)
    → Entries pre xs l
    → Entries pre
        (xs ++ s ∷ [])
        (append digest at written true resource runbook (codes (state_text s)) payload l).0
unfolding append new_entry write_line states_in
append-Entries digest at resource runbook payload s pre xs l h =
    rw (h.live, h.whole)
      (record {
        live = refl;
        whole = refl;
        same =
            states_in-append l.file.lines _
            ∙ ap (λ x. x ++ codes (state_text s) ∷ []) h.same
            ∙ append_assoc pre (texts_of xs) (codes (state_text s) ∷ [])
            ∙ ap (λ x. pre ++ x) (sym (texts_of-append xs (s ∷ [])));
      })

-- The ledger after a call has the entries that its error tells.
abbrev pub Logged : {X : Type 0} → List Bytes → Remediated X → Type 0
Logged pre (st, r, e) =
    states_in st.ledger.file.lines ≡ pre ++ map (λ s. codes (state_text s)) (logged_trail e)

module _ {X : Type 0} (c : Call X) (at : ExecutionState → Bytes) (pre : List Bytes) where
  abbrev call : Call X
  call = record c { readings = kept at c.readings }

  enter-Entries :
      (to : ExecutionState) (reason : String) (digest : Bytes) (xs : List ExecutionState)
      (m : Run X)
      → Entries pre xs m.state.ledger
      → Entries pre (xs ++ to ∷ []) (enter call to reason digest m).state.ledger
  unfolding enter transit note
  enter-Entries to reason digest xs m h =
      append-Entries _ (at to) (codes c.alert.resource_id) (codes c.runbook.id) digest to pre xs
        m.state.ledger h

  commit-Logged :
      (res : Option ExecutionResult) (m : Run X)
      → Entries pre (detected ∷ evaluating ∷ precheck_passed ∷ executing ∷ []) m.state.ledger
      → Logged pre (commit call res m)
  unfolding commit logged_trail trail
  commit-Logged res m h =
      (enter-Entries committed _ _ _ _ (enter-Entries postcheck_passed _ _ _ m h)).same

  reverted-Logged :
      (failure : Failure) (res : Option ExecutionResult) (e : Option RollbackError) (m : Run X)
      → Entries pre
          (detected ∷ evaluating ∷ precheck_passed ∷ executing ∷ postcheck_failed ∷ rolling_back
            ∷ [])
          m.state.ledger
      → Logged pre (reverted call failure res e m)
  unfolding reverted logged_trail trail
  reverted-Logged failure res none m h =
      (enter-Entries escalated _ _ _ _ (enter-Entries rolled_back _ _ _ m h)).same
  reverted-Logged failure res (some e) m h = (enter-Entries escalated _ _ _ m h).same

  module _ (os : System X) where
    conclude-Logged :
        (wal : WalRecord X) (res : Option ExecutionResult) (failure : Option Failure) (m : Run X)
        → Entries pre (detected ∷ evaluating ∷ precheck_passed ∷ executing ∷ []) m.state.ledger
        → Logged pre (conclude os call wal res failure m)
    unfolding conclude revert
    conclude-Logged wal res none m h = commit-Logged res m h
    conclude-Logged wal res (some f) m h =
        let entered =
          enter-Entries rolling_back "initiating compensating rollback actions" _ _ _
            (enter-Entries postcheck_failed (c.texts.message f) _ _ m h) in
        reverted-Logged f res _ _
          (record { live = entered.live; whole = entered.whole; same = entered.same })

    proceed-Logged :
        (outcome : WalRecord X ⊎ JournalError) (m : Run X)
        → Entries pre (detected ∷ evaluating ∷ precheck_passed ∷ []) m.state.ledger
        → Logged pre (proceed os call outcome m)
    unfolding proceed execute_runbook logged_trail trail
    proceed-Logged (inl wal) m h = conclude-Logged wal _ _ _ (enter-Entries executing _ _ _ m h)
    proceed-Logged (inr e) m h = (enter-Entries escalated _ _ _ m h).same

    conditioned-Logged :
        (unmet : Option (String × Option CheckError)) (m : Run X)
        → Entries pre (detected ∷ evaluating ∷ []) m.state.ledger
        → Logged pre (conditioned os call unmet m)
    unfolding conditioned stage_runbook logged_trail trail
    conditioned-Logged none m h = proceed-Logged _ _ (enter-Entries precheck_passed _ _ _ m h)
    conditioned-Logged (some (name, e)) m h =
        (enter-Entries escalated _ _ _ _ (enter-Entries precheck_failed _ _ _ m h)).same

    admit-Logged :
        (refusal : Option Damping.Reason) (m : Run X)
        → Entries pre (detected ∷ evaluating ∷ []) m.state.ledger
        → Logged pre (admit os call refusal m)
    unfolding admit logged_trail trail
    admit-Logged none m h = conditioned-Logged _ _ h
    admit-Logged (some reason) m h =
        (enter-Entries escalated _ _ _ _ (enter-Entries precheck_failed _ _ _ m h)).same

    hold-Logged :
        (lock : Acquired) (m : Run X)
        → Entries pre (detected ∷ evaluating ∷ []) m.state.ledger
        → Logged pre (hold os call lock m)
    unfolding hold gate_runbook logged_trail trail
    hold-Logged (acquired l) m h = admit-Logged _ _ h
    hold-Logged (refused e) m h =
        (enter-Entries escalated _ _ _ _ (enter-Entries precheck_failed _ _ _ m h)).same

module _ {X : Type 0} (os : System X) (texts : Texts) (at : ExecutionState → Bytes)
    (pre : List Bytes) where
  resolve-Logged :
      (lock_dir : Bytes) (rs : Readings) (alert : Alert) (found : Option (Runbook X)) (m : Run X)
      → Entries pre (detected ∷ []) m.state.ledger
      → Logged pre (resolve os texts lock_dir (kept at rs) alert found m)
  unfolding resolve lock_runbook transit note logged_trail trail
  resolve-Logged lock_dir rs alert none m h =
      (append-Entries _ (at escalated) (codes alert.resource_id) _ (alert_digest texts alert)
        escalated pre _ m.state.ledger h).same
  resolve-Logged lock_dir rs alert (some runbook) m h =
      let c : Call X = record { alert = alert; runbook = runbook; readings = rs; texts = texts } in
      hold-Logged c at pre os _ _ (enter-Entries c at pre evaluating _ _ _ m h)

  -- With an open, whole ledger whose writes succeed, a call adds to the records the states that it
  -- went through, in order, each once, whatever it ends with; but none for a malformed alert, and
  -- ESCALATED as well where the staging failed, which the machine did not enter.
  pub remediate-Logged :
      (e : Engine X) (rs : Readings) (alert : Option Alert) (st : State X)
      → st.ledger.is_open ≡ true
      → st.ledger.file.torn ≡ false
      → states_in st.ledger.file.lines ≡ pre
      → Logged pre (remediate os texts e (kept at rs) alert st)
  unfolding remediate transit note logged_trail
  remediate-Logged e rs none st live whole same = same ∙ sym (append-nil pre)
  remediate-Logged e rs (some alert) st live whole same =
      elim (Bool-cases (str_eq alert.id "" || str_eq alert.resource_id "")) [
        | inl empty ↦ rw (empty, remediate) (same ∙ sym (append-nil pre))
        | inr named ↦
            rw (named, remediate)
              (resolve-Logged e.lock_dir rs alert (match_runbook e alert) _ (
                append-Entries _ (at detected) (codes alert.resource_id) _
                  (alert_digest texts alert) detected pre [] st.ledger
                  (record { live = live; whole = whole; same = same ∙ sym (append-nil pre) })))
      ]
