-- ===== src/Ctl/Circuits.antt =====
-- `handleDampingStatus` of cmd/remediation-ctl/main.go. It asks `CanExecute`, which can trip a
-- circuit and write the state file.
use autonomous_remediation_e.Prelude.{
  ℕ, Bool, true, false, String, List, [], ◌∷◌, ◌++◌, Option, none, some, Bytes, bytes_eq,
  str_append, length, if◌then◌else◌,
}
use autonomous_remediation_e.Prelude.Assoc.{Assoc}
use autonomous_remediation_e.Prelude.Scalars.{of_codes}
use autonomous_remediation_e.Damping
use autonomous_remediation_e.Damping.{
  ResourceState, StateFile, Controller, GateReadings, new_controller, can_execute, get_status,
}
use autonomous_remediation_e.Ctl.Flags.{Flag, string, text_flag}
use autonomous_remediation_e.Ctl.{
  Printed, out, err, circuits, Outcome, Formats, Installation, rule, concat, for_each, only_if,
  ends, after, with_flags,
}

abbrev pub damping_flags : List Flag
damping_flags = string "damping-file" "/tmp/remediation-damping.json" ∷ string "resource" "" ∷ []

abbrev pub answer_text : Bool → String
answer_text true = "true"
answer_text false = "false"

module _ (fmt : Formats) where
  unfoldable pub execution_line : ℕ → List Printed
  execution_line t = out (concat ("    - " ∷ fmt.date t ∷ " (" ∷ fmt.since t ∷ " ago)" ∷ [])) ∷ []

  -- What `CanExecute` answered.
  unfoldable pub gate_lines : Option Damping.Reason → List Printed
  gate_lines none = out "  Executable Now : true" ∷ []
  gate_lines (some reason) =
      out "  Executable Now : false"
      ∷ out (str_append "  Block Reason   : " (fmt.reason reason))
      ∷ []

  unfoldable pub state_lines : ResourceState → List Printed
  state_lines st =
      (out (str_append "  Tripped        : " (answer_text st.tripped)) ∷ [])
      ++ only_if st.tripped (
          out (str_append "  Quarantine Thru: " (fmt.date st.quarantine_until))
          ∷ out (str_append "  Trip Reason    : " (fmt.reason st.trip_reason))
          ∷ [])
      ++ (out (concat ("  Executions (" ∷ fmt.number (length st.executions) ∷ ") :" ∷ []))
          ∷ for_each execution_line st.executions)

  unfoldable pub known_lines : Option ResourceState → List Printed
  known_lines none = out "  No execution history recorded for this resource." ∷ []
  known_lines (some st) = state_lines st

  -- One resource: what is shown of its state is read after the gate.
  unfoldable pub show_resource :
      (String → GateReadings) → String → Controller → Controller × List Printed
  unfolding gate_lines known_lines
  show_resource r resource c =
      let (c', refusal) = can_execute (r resource) resource c in
      (
        c',
        (out "" ∷ out (str_append "Resource: " resource) ∷ [])
            ++ gate_lines refusal
            ++ known_lines (get_status resource c'),
      )

  -- All resources: the states are copies that were made before the first gate.
  unfoldable pub show_all :
      (String → GateReadings) → Assoc ResourceState → Controller → Controller × List Printed
  unfolding gate_lines state_lines
  show_all r [] c = (c, [])
  show_all r ((resource, st) ∷ statuses) c =
      let (c1, refusal) = can_execute (r resource) resource c in
      let (c2, lines) = show_all r statuses c1 in
      (
        c2,
        (out "" ∷ out (str_append "* Resource: " resource) ∷ [])
            ++ gate_lines refusal
            ++ state_lines st
            ++ lines,
      )

  -- `GetAllStatuses` and the loop over it.
  unfoldable pub show_tracked :
      (String → GateReadings) → Assoc ResourceState → Controller → Controller × List Printed
  unfolding show_all
  show_tracked r [] c =
      (c, out "" ∷ out "No resource flapping records tracked (all circuits nominal)." ∷ [])
  show_tracked r (s ∷ ss) c =
      let (c', lines) = show_all r (s ∷ ss) c in
      (c', out "" ∷ out (str_append "Tracked Resources: " (fmt.number (length (s ∷ ss)))) ∷ lines)

-- With the resource of the flag, or without.
unfoldable pub show_circuits :
    Formats → (String → GateReadings) → Bytes → Controller → Controller × List Printed
unfolding show_resource show_tracked
show_circuits fmt r resource c =
    if bytes_eq resource []
    then show_tracked fmt r c.states c
    else show_resource fmt r (of_codes resource) c

module _ {X : Type 0} (p : Installation X) where
  abbrev pub shown : Controller × List Printed → Outcome X
  shown (c, lines) = record { lines = lines ++ (rule ∷ []); status = 0; left = circuits c.file }

  -- With the state file that could be loaded, or without.
  unfoldable pub loaded_circuits :
      (String → GateReadings) → Bytes → StateFile → Option Controller → Outcome X
  loaded_circuits r resource file none =
      ends 1
        (err (str_append "Error loading damping controller: " (p.formats.load_error file)) ∷ [])
  loaded_circuits r resource file (some c) = shown (show_circuits p.formats r resource c)

  -- `handleDampingStatus`, over what the paths hold. What a gate reads is told by its resource.
  unfoldable pub handle_damping_status :
      (String → GateReadings) → (Bytes → StateFile) → List Bytes → Outcome X
  handle_damping_status r files args =
      with_flags p.formats "damping-status" damping_flags
        (λ fs.
          let path = text_flag "damping-file" fs in
          after
            (rule
              ∷ out "  FLAPPING DAMPING & CIRCUIT BREAKER STATUS                       "
              ∷ rule
              ∷ out (str_append "Damping State File: " (of_codes path))
              ∷ [])
            (loaded_circuits r (text_flag "resource" fs) (files path)
              (new_controller (of_codes path) (files path))))
        args
