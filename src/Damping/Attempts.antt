-- ===== src/Damping/Attempts.antt =====
-- Sequences of calls of the damping controller (internal/damping/damping.go), made as
-- `Remediate` of internal/engine/engine.go makes them: `CanExecute` first, and
-- `RecordExecution` at the end of a run that was let through and that committed.
use autonomous_remediation_e.Prelude.{
  ℕ, ◌≤◌, Bool, false, String, List, [], ◌∷◌, ◌++◌, Option, none, some, str_eq, if◌then◌else◌,
}
use autonomous_remediation_e.Damping.{
  Controller, GateReadings, Reason, can_execute, trip, record_execution_at,
}

pub data Op : Type 0 where
  -- The resource, what `CanExecute` reads, when the run ends, whether it commits, and whether the
  -- record is written to disk.
  attempt : String → GateReadings → ℕ → Bool → Bool → Op
  -- An operator's `Trip`: the time, whether it is written, the resource, the duration.
  force : ℕ → Bool → String → ℕ → Op

-- Whether `CanExecute` lets the resource through and the run commits.
unfoldable pub is_recorded : Option Reason → Bool → Bool
is_recorded none commits = commits
is_recorded (some _) commits = false

unfoldable pub step : Op → Controller → Controller
step (attempt k r done commits written) c =
    let (c', refusal) = can_execute r k c in
    if is_recorded refusal commits then record_execution_at written k done c' else c'
step (force now written k d) c = trip now written k d c

-- The times at which runs for the resource `j` were recorded, appended to `log`. Nothing is ever
-- dropped from it.
unfoldable pub logged : String → Op → Controller → List ℕ → List ℕ
logged j (attempt k r done commits written) c log =
    if is_recorded (can_execute r k c).1 commits
    then if str_eq k j then log ++ (done ∷ []) else log
    else log
logged j (force now written k d) c log = log

unfoldable pub run : List Op → Controller → Controller
run [] c = c
run (o ∷ os) c = run os (step o c)

unfoldable pub log_of : String → List Op → Controller → List ℕ → List ℕ
log_of j [] c log = log
log_of j (o ∷ os) c log = log_of j os (step o c) (logged j o c log)

-- The clock does not run backwards: each attempt starts at `last` or later, and ends no earlier
-- than it starts.
abbrev pub Ordered : ℕ → List Op → Type 0
Ordered last [] = Unit
Ordered last (attempt k r done commits written ∷ os) =
    (last ≤ r.now) × (r.now ≤ done) × Ordered done os
Ordered last (force now written k d ∷ os) = Ordered last os
