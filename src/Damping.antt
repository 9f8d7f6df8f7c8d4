-- ===== src/Damping.antt =====
-- internal/damping/damping.go: the flapping damping controller and its circuit breaker.
-- A time is a number of nanoseconds, and 0 is Go's zero time. `now.Sub(t) <= w` is written
-- `now ≤ t + w`, which is the same for a `t` in the future. A duration below 0 takes the branch
-- of 0, so durations are natural numbers. A refusal's text is a value of `Reason` with what the
-- text shows.
pub mod Gate
pub mod Attempts
pub mod Rates
pub mod Quarantine
pub mod Isolation
mod Tests
use autonomous_remediation_e.Prelude.{
  ℕ, ◌+◌, ◌*◌, ◌^◌, Bool, true, false, ◌&&◌, String, List, [], ◌∷◌, ◌++◌, Option, none, some,
  str_eq, ltb, leb, ◌==◌, if◌then◌else◌, keep, count_if, last?,
}
use autonomous_remediation_e.Prelude.Assoc.{Assoc, lookup, insert, erase}

abbrev pub second : ℕ
second = 10 ^ 9

abbrev pub max_executions_10min : ℕ
max_executions_10min = 2

abbrev pub max_executions_1hour : ℕ
max_executions_1hour = 4

abbrev pub default_cooldown : ℕ
default_cooldown = 300 * second

abbrev pub default_quarantine_duration : ℕ
default_quarantine_duration = 3600 * second

abbrev pub window_10min : ℕ
window_10min = 600 * second

abbrev pub window_1hour : ℕ
window_1hour = 3600 * second

abbrev pub day : ℕ
day = 86400 * second

pub data Reason : Type 0 where
  empty : Reason
  manual : ℕ → Reason
  quarantined : ℕ → Reason → Reason
  cooldown_violation : ℕ → ℕ → Reason
  limit_10min limit_1hour : ℕ → Reason

pub record ResourceState : Type 0 where
  pub resource : String
  pub executions : List ℕ
  pub tripped : Bool
  pub quarantine_until : ℕ
  pub trip_reason : Reason

-- What the state file holds.
pub data StateFile : Type 0 where
  missing unreadable corrupt null : StateFile
  saved : Assoc ResourceState → StateFile

-- The controller with the file at its path. `nowFn` is the clock, whose readings are arguments.
pub record Controller : Type 0 where
  pub state_path : String
  pub states : Assoc ResourceState
  pub file : StateFile

-- `load`: the states read, `none` for an error.
unfoldable pub load : StateFile → Option (Assoc ResourceState)
load missing = some []
load unreadable = none
load corrupt = none
load null = some []
load (saved m) = some m

-- `NewController` over what the file holds; `none` for an error.
unfoldable pub new_controller : String → StateFile → Option Controller
unfolding load
new_controller path file =
    if str_eq path ""
    then some (record { state_path = path; states = []; file = file })
    else elim (load file) [
      | none ↦ none
      | some m ↦ some (record { state_path = path; states = m; file = file })
    ]

-- `saveLocked`, whose error every caller drops. `written` says whether the directory, the
-- temporary file and the rename succeeded; the file is replaced by the rename alone.
unfoldable pub save_locked : Bool → Controller → Controller
save_locked written c =
    if str_eq c.state_path "" then c else if written then record c { file = saved c.states } else c

abbrev pub new_state : String → ResourceState
new_state resource = record {
  resource = resource;
  executions = [];
  tripped = false;
  quarantine_until = 0;
  trip_reason = empty;
}

-- `c.states[resource]`, or the state that is created where there is none.
unfoldable pub state_of : String → Controller → ResourceState
state_of resource c = elim (lookup resource c.states) [ none ↦ new_state resource | some st ↦ st ]

-- `tripLocked`, which reads the clock again.
unfoldable pub trip_locked : ℕ → String → ℕ → Reason → Controller → Controller
trip_locked now resource duration reason c =
    let st = record (state_of resource c) {
      tripped = true;
      quarantine_until = now + duration;
      trip_reason = reason;
    } in
    record c { states = insert resource st c.states }

-- `Trip`.
unfoldable pub trip : ℕ → Bool → String → ℕ → Controller → Controller
unfolding trip_locked save_locked
trip now written resource duration c =
    let d = if duration == 0 then default_quarantine_duration else duration in
    save_locked written (trip_locked now resource d (manual d) c)

-- How many executions are at most `window` before `now`.
unfoldable pub count_within : ℕ → ℕ → List ℕ → ℕ
count_within now window executions = count_if (λ t. leb now (t + window)) executions

-- The cooldown and the two rate limits, in the order of the source: why a resource with these
-- executions is refused, if it is.
unfoldable pub breach : ℕ → List ℕ → Option Reason
breach now executions =
    let count_10m = count_within now window_10min executions in
    let count_1h = count_within now window_1hour executions in
    let limits : Option Reason =
      if leb max_executions_10min count_10m
      then some (limit_10min count_10m)
      else if leb max_executions_1hour count_1h
      then some (limit_1hour count_1h)
      else none in
    elim (last? executions) [
      | none ↦ limits
      | some last ↦
          if ltb now (last + default_cooldown) then some (cooldown_violation now last) else limits
    ]

-- What `CanExecute` reads from outside: the clock, again in `tripLocked`, and whether each of the
-- two possible saves succeeds.
pub record GateReadings : Type 0 where
  pub now : ℕ
  pub trip_now : ℕ
  pub reset_written : Bool
  pub trip_written : Bool

-- An expired quarantine is cleared.
unfoldable pub clear_expired : String → Bool → ResourceState → Controller → Controller
clear_expired resource written st c =
    let st' = record st { tripped = false; quarantine_until = 0; trip_reason = empty } in
    if st.tripped
    then save_locked written (record c { states = insert resource st' c.states })
    else c

-- `CanExecute` for a resource with a state: the quarantine first, then the three limits.
unfoldable pub judge :
    GateReadings → String → ResourceState → Controller → Controller × Option Reason
judge r resource st c =
    let c' = clear_expired resource r.reset_written st c in
    if st.tripped && ltb r.now st.quarantine_until
    then (c, some (quarantined st.quarantine_until st.trip_reason))
    else elim (breach r.now st.executions) [
      | none ↦ (c', none)
      | some reason ↦ (
        save_locked r.trip_written
            (trip_locked r.trip_now resource default_quarantine_duration reason c'),
        some reason,
      )
    ]

-- `CanExecute`: the controller afterwards, and the refusal, if there is one.
unfoldable pub can_execute : GateReadings → String → Controller → Controller × Option Reason
can_execute r resource c = elim (lookup resource c.states) [
  | none ↦ (c, none)
  | some st ↦ judge r resource st c
]

-- `RecordExecutionAt`: the new time is appended, and what is a day old or older is dropped.
unfoldable pub record_execution_at : Bool → String → ℕ → Controller → Controller
record_execution_at written resource t c =
    let st = state_of resource c in
    let pruned = keep (λ e. ltb t (e + day)) (st.executions ++ (t ∷ [])) in
    save_locked written
      (record c { states = insert resource (record st { executions = pruned }) c.states })

-- `Reset`.
unfoldable pub reset : Bool → String → Controller → Controller
reset written resource c = save_locked written (record c { states = erase resource c.states })

-- `GetStatus`.
unfoldable pub get_status : String → Controller → Option ResourceState
get_status resource c = lookup resource c.states
