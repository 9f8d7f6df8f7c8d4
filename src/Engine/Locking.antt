-- ===== src/Engine/Locking.antt =====
-- The lock that a call of `Remediate` (internal/engine/engine.go) takes, and its release.
use autonomous_remediation_e.Prelude.{
  ◌≡◌, ◌⊎◌, refl, ap, ◌∙◌, true, false, ◌||◌, String, List, [], ◌∷◌, Option, none, some, Bytes,
  bytes_eq_refl, str_eq, codes, inl, inr, Bool-cases, arith,
}
use autonomous_remediation_e.Damping.{can_execute, record_execution_at}
use autonomous_remediation_e.Damping
use autonomous_remediation_e.Lock.{
  FileAnswers, LockError, lock_held, no_directory, no_file, flock_failed, Kernel, is_held,
  drop_lock, acquired, refused, try_lock, try_lock_path, lock_path_for, unlock,
}
use autonomous_remediation_e.Host.{System}
use autonomous_remediation_e.Executor.{ExecutionResult}
use autonomous_remediation_e.Verifier.{CheckError}
use autonomous_remediation_e.Rollback.{WalRecord, JournalError, RollbackError}
use autonomous_remediation_e.Engine.{Alert, Runbook, State, Engine, Failure, Readings, Texts}
use autonomous_remediation_e.Engine.Steps.{Run, Call, transit, enter, note}
use autonomous_remediation_e.Engine.Settle.{Remediated, commit, reverted, revert}
use autonomous_remediation_e.Engine.Remediate.{
  conclude, execute_runbook, proceed, stage_runbook, conditioned, admit, gate_runbook, hold,
  lock_runbook, match_runbook, resolve, remediate,
}

drop_lock-free : (p : Bytes) (qs : List Bytes) → is_held p qs ≡ false → drop_lock p qs ≡ qs
unfolding is_held drop_lock
drop_lock-free p [] h = refl
drop_lock-free p (q ∷ qs) h = ground (arith, drop_lock-free p qs)

module _ {X : Type 0} (os : System X) (call : Call X) where
  -- The locks of the kernel, which only `TryLock` and `Unlock` change.
  abbrev held_after : Remediated X → List Bytes
  held_after (st, r, e) = st.kernel.held

  reverted-kernel :
      (failure : Failure) (res : Option ExecutionResult) (e : Option RollbackError) (m : Run X)
      → (reverted call failure res e m).0.kernel ≡ m.state.kernel
  unfolding reverted enter transit note
  reverted-kernel failure res none m = refl
  reverted-kernel failure res (some e) m = refl

  conclude-kernel :
      (wal : WalRecord X) (res : Option ExecutionResult) (failure : Option Failure) (m : Run X)
      → (conclude os call wal res failure m).0.kernel ≡ m.state.kernel
  unfolding conclude commit revert enter transit note
  conclude-kernel wal res none m = refl
  conclude-kernel wal res (some failure) m = reverted-kernel failure res _ _

  proceed-kernel :
      (outcome : WalRecord X ⊎ JournalError) (m : Run X)
      → (proceed os call outcome m).0.kernel ≡ m.state.kernel
  unfolding proceed execute_runbook enter transit note
  proceed-kernel (inl wal) m = conclude-kernel wal _ _ _
  proceed-kernel (inr e) m = refl

  conditioned-kernel :
      (unmet : Option (String × Option CheckError)) (m : Run X)
      → (conditioned os call unmet m).0.kernel ≡ m.state.kernel
  unfolding conditioned stage_runbook enter transit note
  conditioned-kernel none m = proceed-kernel _ _
  conditioned-kernel (some (name, e)) m = refl

  admit-kernel :
      (refusal : Option Damping.Reason) (m : Run X)
      → (admit os call refusal m).0.kernel ≡ m.state.kernel
  unfolding admit enter transit note
  admit-kernel none m = conditioned-kernel _ _
  admit-kernel (some reason) m = refl

  gate_runbook-kernel : (m : Run X) → (gate_runbook os call m).0.kernel ≡ m.state.kernel
  unfolding gate_runbook
  gate_runbook-kernel m = admit-kernel _ _

-- A `TryLock` is refused and leaves the table, or the path was free and stands in it now.
try_lock-cases :
    (digest : Bytes → Bytes) (dir : Bytes) (answers : FileAnswers) (r : Bytes) (k : Kernel)
    → let p = lock_path_for digest dir r in
      ((e : LockError) × (try_lock digest dir answers r k ≡ (k, refused e)))
      ⊎ (is_held p k.held ≡ false)
        × (try_lock digest dir answers r k ≡ (
          record { held = p ∷ k.held },
          acquired (record { resource_id = r; path = p; is_open = true; released = false }),
        ))
unfolding try_lock try_lock_path
try_lock-cases digest dir answers r k = elim (Bool-cases answers.directory) [
  | inr fails ↦ inl (no_directory, rw (fails, try_lock, try_lock_path) refl)
  | inl made ↦ elim (Bool-cases answers.opened) [
    | inr fails ↦ inl (no_file, rw (made, fails, try_lock, try_lock_path) refl)
    | inl there ↦ elim (Bool-cases answers.fault) [
      | inl bad ↦ inl (flock_failed, rw (made, there, bad, try_lock, try_lock_path) refl)
      | inr fine ↦ elim (Bool-cases (is_held (lock_path_for digest dir r) k.held)) [
        | inl held ↦ inl (lock_held, rw (made, there, fine, held, try_lock, try_lock_path) refl)
        | inr free ↦ inr (free, rw (made, there, fine, free, try_lock, try_lock_path) refl)
      ]
    ]
  ]
]

drop_lock-head : (p : Bytes) (qs : List Bytes) → is_held p qs ≡ false → drop_lock p (p ∷ qs) ≡ qs
unfolding drop_lock
drop_lock-head p qs free = rw (bytes_eq_refl p) (drop_lock-free p qs free)

module _ {X : Type 0} (os : System X) where
  hold-kernel :
      (call : Call X) (p r : Bytes) (m : Run X)
      → (hold os call
          (acquired (record { resource_id = r; path = p; is_open = true; released = false }))
          m).0.kernel
        ≡ record { held = drop_lock p m.state.kernel.held }
  unfolding hold unlock
  hold-kernel call p r m =
      ap (λ k. record { held = drop_lock p k.held }) (gate_runbook-kernel os call m)

  lock_runbook-kernel :
      (lock_dir : Bytes) (call : Call X) (m : Run X)
      → (lock_runbook os lock_dir call m).0.kernel ≡ m.state.kernel
  unfolding lock_runbook hold enter transit note unlock
  lock_runbook-kernel lock_dir call m =
      elim (try_lock-cases call.texts.sha256 lock_dir call.readings.lock
        (codes call.alert.resource_id) m.state.kernel) [
          | inl (e, same) ↦ rw (same, lock_runbook) refl
          | inr (free, same) ↦
              rw (same, lock_runbook)
                (hold-kernel call _ (codes call.alert.resource_id) _
                  ∙ ap (λ x. record { held = x }) (drop_lock-head _ m.state.kernel.held free))
        ]

  resolve-kernel :
      (texts : Texts) (lock_dir : Bytes) (rs : Readings) (alert : Alert)
      (found : Option (Runbook X)) (m : Run X)
      → (resolve os texts lock_dir rs alert found m).0.kernel ≡ m.state.kernel
  unfolding resolve enter transit note
  resolve-kernel texts lock_dir rs alert none m = refl
  resolve-kernel texts lock_dir rs alert (some runbook) m = lock_runbook-kernel lock_dir _ _

  -- Whatever a call does and however it ends, the kernel's table of locks is the one from before:
  -- the lock that it took, if any, is released on every path, and no other lock is.
  pub remediate-kernel :
      (texts : Texts) (e : Engine X) (rs : Readings) (alert : Option Alert) (st : State X)
      → (remediate os texts e rs alert st).0.kernel ≡ st.kernel
  unfolding remediate transit note
  remediate-kernel texts e rs none st = refl
  remediate-kernel texts e rs (some alert) st =
      elim (Bool-cases (str_eq alert.id "" || str_eq alert.resource_id "")) [
        | inl blank ↦ rw (blank, remediate) refl
        | inr named ↦
            rw (named, remediate)
              (resolve-kernel texts e.lock_dir rs alert (match_runbook e alert) _)
      ]
