-- ===== src/Ctl/Probing.antt =====
-- What `handleDampingStatus` of cmd/remediation-ctl/main.go does to the circuit that it shows.
use autonomous_remediation_e.Prelude.{
  ℕ, ◌+◌, ◌≡◌, ◌≢◌, refl, ap, subst, true, false, String, List, [], none, some, Bytes, bytes_eq,
  str_eq, ltb, if◌then◌else◌,
}
use autonomous_remediation_e.Prelude.Scalars.{of_codes}
use autonomous_remediation_e.Damping.{
  StateFile, Controller, GateReadings, new_controller, can_execute, breach,
  default_quarantine_duration,
}
use autonomous_remediation_e.Damping.Isolation.{can_execute-saved, new_controller-path}
use autonomous_remediation_e.Damping.Gate.{executions_of}
use autonomous_remediation_e.Damping.Quarantine.{is_quarantined, can_execute-breach_trips}
use autonomous_remediation_e.Ctl.Flags.{Flag, got, parse_flags, text_flag}
use autonomous_remediation_e.Ctl.{Formats, Installation, circuits, flagged, with_flags}
use autonomous_remediation_e.Ctl.Circuits.{
  damping_flags, show_resource, show_circuits, loaded_circuits, handle_damping_status,
}

show_circuits-one :
    (fmt : Formats) (gates : String → GateReadings) (resource : Bytes) (c : Controller)
    → bytes_eq resource [] ≡ false
    → (show_circuits fmt gates resource c).0
      ≡ (can_execute (gates (of_codes resource)) (of_codes resource) c).0
unfolding show_circuits show_resource
show_circuits-one fmt gates resource c h = rw h refl

module _ {X : Type 0} (p : Installation X) (gates : String → GateReadings)
    (files : Bytes → StateFile) where
  -- `remediation-ctl damping-status --resource=…` acts as an attempt to execute would: where the resource
  -- is in no quarantine, its executions breach a limit and the state file is named and can be written, the
  -- command exits with 0, and a controller that is built over the file that it leaves has the resource
  -- quarantined for an hour from then, and every other resource as it was.
  pub handle_damping_status_trips :
      (args : List Bytes) (fs : List Flag) (c : Controller)
      → let path = of_codes (text_flag "damping-file" fs) in
        let k = of_codes (text_flag "resource" fs) in
        let o = handle_damping_status p gates files args in
        parse_flags none args damping_flags ≡ got fs
        → bytes_eq (text_flag "resource" fs) [] ≡ false
        → str_eq path "" ≡ false
        → (gates k).trip_written ≡ true
        → new_controller path (files (text_flag "damping-file" fs)) ≡ some c
        → is_quarantined (gates k).now k c ≡ false
        → breach (gates k).now (executions_of k c) ≢ none
        → (o.status ≡ 0)
          × (file : StateFile) × (c' : Controller) × ((o.left ≡ circuits file)
              × (new_controller path file ≡ some c')
              × ((j : String) (at : ℕ)
                  → is_quarantined at j c' ≡ (
                      if str_eq k j
                      then ltb at ((gates k).trip_now + default_quarantine_duration)
                      else is_quarantined at j c)))
  unfolding handle_damping_status with_flags flagged loaded_circuits
  handle_damping_status_trips args fs c parses given named written loads free bad =
      let k = of_codes (text_flag "resource" fs) in
      let path = new_controller-path _ _ c loads in
      let saved =
        subst
          (λ s.
            new_controller s (can_execute (gates k) k c).0.file
            ≡ some (can_execute (gates k) k c).0)
          path (can_execute-saved (gates k) k c (rw path named) written free bad) in
      let c' = (can_execute (gates k) k c).0 in
      (
        rw (parses, loads) refl,
        c'.file,
        c',
        (
          rw (parses, loads)
              (ap (λ x. circuits x.file)
                (show_circuits-one p.formats gates (text_flag "resource" fs) c given)),
          saved,
          λ j at. can_execute-breach_trips (gates k) k j at c free bad,
        ),
      )
