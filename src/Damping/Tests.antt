-- ===== src/Damping/Tests.antt =====
-- Runs of the damping controller, and the theorems at concrete inputs.
use autonomous_remediation_e.Prelude.{
  ℕ, ◌+◌, ◌*◌, ◌≤◌, ◌≡◌, ◌↔◌, refl, true, false, List, [], ◌∷◌, none, arith,
}
use autonomous_remediation_e.Prelude.Assoc.{lookup, insert}
use autonomous_remediation_e.Damping.{
  Controller, GateReadings, StateFile, second, empty, state_of, can_execute, judge, breach,
  count_within, clear_expired, save_locked, trip_locked, trip, record_execution_at, window_10min,
  window_1hour,
}
use autonomous_remediation_e.Damping.Gate.{executions_of}
use autonomous_remediation_e.Damping.Attempts.{
  Op, attempt, force, is_recorded, step, logged, log_of,
}
use autonomous_remediation_e.Damping.Rates.{count_in, Spaced, run-rates}
use autonomous_remediation_e.Damping.Quarantine.{is_quarantined, KeepsLimits, can_execute_iff}

abbrev fresh : Controller
fresh = record { state_path = "damping.json"; states = []; file = StateFile.missing }

abbrev at : ℕ → GateReadings
at s = record {
  now = s * second;
  trip_now = s * second + 1;
  reset_written = true;
  trip_written = true;
}

abbrev try : ℕ → Op
try s = attempt "/var/log" (at s) (s * second + 7) true true

-- The second attempt falls into the cooldown and trips the breaker, so that of 600 s is refused
-- too; the resource is let through again after the hour.
abbrev tries : List Op
tries = try 10 ∷ try 100 ∷ try 600 ∷ force 0 true "db" 5 ∷ try 4000 ∷ []

tries_log : log_of "/var/log" tries fresh [] ≡ (10 * second + 7) ∷ (4000 * second + 7) ∷ []
unfolding log_of logged step is_recorded can_execute judge breach count_within clear_expired
    save_locked trip_locked trip record_execution_at state_of lookup insert
tries_log = refl

run-rates_example :
    let log = log_of "/var/log" tries fresh [] in
    ((a : ℕ) → count_in a window_10min log ≤ 2)
    × ((a : ℕ) → count_in a window_1hour log ≤ 4)
    × Spaced log
unfolding executions_of state_of lookup
run-rates_example = run-rates "/var/log" tries fresh refl (omega arith)

abbrev used : Controller
used = record {
  state_path = "damping.json";
  states =
      (
        "/var/log",
        record {
          resource = "/var/log";
          executions = (10 * second) ∷ [];
          tripped = true;
          quarantine_until = 100 * second;
          trip_reason = empty;
        },
      )
      ∷ [];
  file = StateFile.missing;
}

can_execute_iff_example : ((can_execute (at 200) "/var/log" used).1 ≡ none) ↔ (
    (is_quarantined (200 * second) "/var/log" used ≡ false)
    × KeepsLimits (200 * second) (executions_of "/var/log" used))
can_execute_iff_example = can_execute_iff (at 200) "/var/log" used
