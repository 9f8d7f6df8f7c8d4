-- ===== src/Ingress/Poller/Rounds.antt =====
-- What a round of the poller (internal/ingress/poller.go) does.
use autonomous_remediation_e.Prelude.{
  ◌≡◌, ◌≢◌, if◌then◌else◌, Bool, true, false, List, [], ◌∷◌, String, Option, none, some,
}
use autonomous_remediation_e.Host.{World, System}
use autonomous_remediation_e.Verifier.{CheckError}
use autonomous_remediation_e.Engine.{Engine, Texts}
use autonomous_remediation_e.Engine.Catalog.{get_runbook}
use autonomous_remediation_e.Engine.Remediate.{match_runbook}
use autonomous_remediation_e.Ingress.Processor.{Daemon, process}
use autonomous_remediation_e.Config.Settings.{PathConfig, ServiceConfig}
use autonomous_remediation_e.Ingress.Poller.{Format, Moment, disk_alert, service_alert, with_world}
use autonomous_remediation_e.Ingress.Poller.Health.{IsFree, IsHealthy, IsUnhealthy}

module _ {X : Type 0} (os : System X) (f : Format) (texts : Texts) (e : Engine X) where
  -- The paths one after the other, then the services: an entry without a name is passed over; one that
  -- is fine leaves what its check left; for one that is not, the engine runs on its alert, for which it
  -- takes the runbook of its kind.
  pub data Round
      : List (PathConfig × Moment)
        → List (ServiceConfig × Moment)
        → Daemon X
        → Daemon X
        → Type 0 where
    done : {d : Daemon X} → Round [] [] d d
    unnamed_path :
        {pc : PathConfig} {m : Moment} {ps : List (PathConfig × Moment)}
        {ss : List (ServiceConfig × Moment)} {d d' : Daemon X}
        → pc.path ≡ ""
        → Round ps ss d d'
        → Round ((pc, m) ∷ ps) ss d d'
    free_path :
        {pc : PathConfig} {m : Moment} {ps : List (PathConfig × Moment)}
        {ss : List (ServiceConfig × Moment)} {d d' : Daemon X}
        → pc.path ≢ ""
        → IsFree os pc d.state.world
        → Round ps ss d d'
        → Round ((pc, m) ∷ ps) ss d d'
    full_path :
        {pc : PathConfig} {m : Moment} {ps : List (PathConfig × Moment)}
        {ss : List (ServiceConfig × Moment)} {d d' : Daemon X} (error : Option CheckError)
        → pc.path ≢ ""
        → ¬ IsFree os pc d.state.world
        → match_runbook e (disk_alert f m pc error) ≡ get_runbook "RBK-DISK-001" e
        → Round ps ss (process os texts e m.readings (disk_alert f m pc error) d).0 d'
        → Round ((pc, m) ∷ ps) ss d d'
    unnamed_service :
        {sc : ServiceConfig} {m : Moment} {ss : List (ServiceConfig × Moment)} {d d' : Daemon X}
        → sc.name ≡ ""
        → Round [] ss d d'
        → Round [] ((sc, m) ∷ ss) d d'
    healthy :
        {sc : ServiceConfig} {m : Moment} {ss : List (ServiceConfig × Moment)} {d d' : Daemon X}
        {w : World X}
        → sc.name ≢ ""
        → IsHealthy os sc d.state.world w
        → Round [] ss (with_world w d) d'
        → Round [] ((sc, m) ∷ ss) d d'
    unhealthy :
        {sc : ServiceConfig} {m : Moment} {ss : List (ServiceConfig × Moment)} {d d' : Daemon X}
        {w : World X} (reason : String)
        → sc.name ≢ ""
        → IsUnhealthy os sc d.state.world w
        → match_runbook e (service_alert m sc reason) ≡ get_runbook "RBK-PROC-001" e
        → Round [] ss
            (process os texts e m.readings (service_alert m sc reason) (with_world w d)).0
            d'
        → Round [] ((sc, m) ∷ ss) d d'

  -- The alert that an answer of the check of a path leads to.
  abbrev answered : Bool → Option CheckError → Option (Option CheckError)
  answered passed (some x) = some (some x)
  answered true none = none
  answered false none = some none

  abbrev breach_of : Bool × Option CheckError → Option (Option CheckError)
  breach_of x = elim x.1 [ some e ↦ some (some e) | none ↦ if x.0 then none else some none ]
