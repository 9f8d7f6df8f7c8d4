-- ===== src/Ingress/Poller.antt =====
-- internal/ingress/poller.go: one round of the poller. Each check is made on the host as the
-- remediations before it in the round have left it.
pub mod Health
pub mod Rounds
use Prim.Native.Char.{Char, code}
use autonomous_remediation_e.Prelude.{
  ℕ, zero, suc, Bool, true, false, ◌&&◌, ◌||◌, not, List, [], ◌∷◌, String, Option, none, some,
  Bytes, codes, str_eq, str_append, ◌==◌, if◌then◌else◌, inl, inr,
}
use autonomous_remediation_e.Prelude.Strings.{trim_space, atoi, or_no_pid}
use autonomous_remediation_e.Host.{World, System}
use autonomous_remediation_e.Verifier.{
  CheckError, check_disk_free, check_process_alive, check_http_health,
}
use autonomous_remediation_e.Runbooks.Files.{read_file}
use autonomous_remediation_e.Engine.{Alert, State, Engine, Readings, Texts}
use autonomous_remediation_e.Config.Settings.{PathConfig, ServiceConfig, is_positive}
use autonomous_remediation_e.Ingress.Processor.{Daemon, process}

-- What the poller takes from the formatter: the percentages, an error, and why a process counts as
-- dead, by its file and its number.
pub record Format : Type 0 where
  pub percentage : ℕ → String
  pub current_free : String → String
  pub error : Option CheckError → String
  pub unreadable_pid : String → String
  pub dead : ℕ → String

-- What one alert of the poller reads: its time, the text of its nanoseconds, and the engine's run.
pub record Moment : Type 0 where
  pub now : ℕ
  pub nanos : String
  pub readings : Readings

-- The interval that `NewPoller` takes from the settings, as the bit pattern of an int64.
unfoldable pub new_poller : ℕ → ℕ
new_poller interval = if is_positive interval then interval else 2000000000

abbrev pub is_dash : Char → Bool
is_dash c = code c == 45

-- Both `ReplaceAll` of `sanitizeTag`.
unfoldable pub dashed : String → String
dashed String.[] = String.[]
dashed (String.◌∷◌ c s) = String.◌∷◌ (if code c == 47 || code c == 58 then "-" else c) (dashed s)

abbrev pub kept_front : Bool → Char → String → String → String
kept_front true c s rest = rest
kept_front false c s rest = String.◌∷◌ c s

-- Without the dashes at the front.
unfoldable pub trim_front_dashes : String → String
trim_front_dashes String.[] = String.[]
trim_front_dashes (String.◌∷◌ c s) = kept_front (is_dash c) c s (trim_front_dashes s)

abbrev pub kept_back : Bool → Char → String → String
kept_back true c String.[] = String.[]
kept_back true c (String.◌∷◌ d s) = String.◌∷◌ c (String.◌∷◌ d s)
kept_back false c s = String.◌∷◌ c s

-- Without those at the end.
unfoldable pub trim_back_dashes : String → String
trim_back_dashes String.[] = String.[]
trim_back_dashes (String.◌∷◌ c s) = kept_back (is_dash c) c (trim_back_dashes s)

abbrev or_root : String → String
or_root String.[] = "root"
or_root (String.◌∷◌ c s) = String.◌∷◌ c s

-- `sanitizeTag`.
unfoldable pub sanitize_tag : String → String
sanitize_tag s = or_root (trim_back_dashes (trim_front_dashes (dashed s)))

-- The alert of a path whose disk is too full.
unfoldable pub disk_alert : Format → Moment → PathConfig → Option CheckError → Alert
disk_alert f m pc error = record {
  id = str_append "poller-disk-" (str_append (sanitize_tag pc.path) (str_append "-" m.nanos));
  fingerprint = str_append "disk-pressure-" pc.path;
  source = "autonomous-poller";
  resource_id = pc.path;
  severity = "HIGH";
  labels =
      ("alertname", "DiskVolumeSaturation")
      ∷ ("runbook_id", "RBK-DISK-001")
      ∷ ("resource", pc.path)
      ∷ [];
  annotations =
      ("min_free_pct", f.percentage pc.min_free_pct)
      ∷ ("current_free_pct", f.current_free pc.path)
      ∷ ("error", f.error error)
      ∷ [];
  received_at = m.now;
  hmac_signature = "";
  raw_payload = "";
}

-- The alert of a service that is not healthy.
unfoldable pub service_alert : Moment → ServiceConfig → String → Alert
service_alert m sc reason = record {
  id = str_append "poller-svc-" (str_append (sanitize_tag sc.name) (str_append "-" m.nanos));
  fingerprint = str_append "service-unhealthy-" sc.name;
  source = "autonomous-poller";
  resource_id = sc.name;
  severity = "CRITICAL";
  labels =
      ("alertname", "ServiceUnhealthyDeadlock")
      ∷ ("runbook_id", "RBK-PROC-001")
      ∷ ("service", sc.name)
      ∷ [];
  annotations = ("health_url", sc.health_url) ∷ ("pid_file", sc.pid_file) ∷ ("reason", reason) ∷ [];
  received_at = m.now;
  hmac_signature = "";
  raw_payload = "";
}

-- `!ok || hErr != nil`
unfoldable pub http_reason : Format → Bool → Option CheckError → Option String
http_reason f true none = none
http_reason f true (some error) = some (f.error (some error))
http_reason f false error = some (f.error error)

module _ {X : Type 0} (os : System X) (f : Format) where
  -- The process that a file names, by the file's content.
  unfoldable pub pid_reason : String → Option String → World X → Option String
  pid_reason pid_file none w = some (f.unreadable_pid pid_file)
  pid_reason pid_file (some content) w =
      let pid = or_no_pid (atoi (trim_space (codes content))) in
      if check_process_alive os pid w then none else some (f.dead pid)

  -- Why a service is not healthy, if it is not: by its URL, else by its file.
  unfoldable pub failure_reason : ServiceConfig → World X → World X × Option String
  failure_reason sc w =
      if not (str_eq sc.health_url "")
      then (let (w', ok, error) = check_http_health os sc.health_url 1500000000 200 w in
          (w', http_reason f ok error))
      else if not (str_eq sc.pid_file "")
      then (w, pid_reason sc.pid_file (read_file os sc.pid_file w) w)
      else (w, none)

module _ {X : Type 0} (os : System X) where
  -- Whether the disk of a path is too full, with the error of the check.
  unfoldable pub disk_breach : PathConfig → World X → Option (Option CheckError)
  disk_breach pc w =
      let (passed, error) = check_disk_free os pc.path pc.min_free_pct w in
      elim error [ some e ↦ some (some e) | none ↦ if passed then none else some none ]

module _ {X : Type 0} where
  abbrev pub with_world : World X → Daemon X → Daemon X
  with_world w d = record d { state = record d.state { world = w } }

module _ {X : Type 0} (os : System X) (f : Format) (texts : Texts) (e : Engine X) where
  -- An alert for a breach, if there is one.
  unfoldable pub report_disk :
      Moment → PathConfig → Option (Option CheckError) → Daemon X → Daemon X
  report_disk m pc none d = d
  report_disk m pc (some error) d = (process os texts e m.readings (disk_alert f m pc error) d).0

  unfoldable pub poll_disk_path : PathConfig × Moment → Daemon X → Daemon X
  poll_disk_path (pc, m) d =
      if str_eq pc.path "" then d else report_disk m pc (disk_breach os pc d.state.world) d

  -- `pollDiskPaths`.
  unfoldable pub poll_disk_paths : List (PathConfig × Moment) → Daemon X → Daemon X
  poll_disk_paths [] d = d
  poll_disk_paths (p ∷ ps) d = poll_disk_paths ps (poll_disk_path p d)

  unfoldable pub report_service : Moment → ServiceConfig → Option String → Daemon X → Daemon X
  report_service m sc none d = d
  report_service m sc (some reason) d =
      (process os texts e m.readings (service_alert m sc reason) d).0

  unfoldable pub poll_service : ServiceConfig × Moment → Daemon X → Daemon X
  poll_service (sc, m) d =
      let (w, reason) = failure_reason os f sc d.state.world in
      if str_eq sc.name "" then d else report_service m sc reason (with_world w d)

  -- `pollServices`.
  unfoldable pub poll_services : List (ServiceConfig × Moment) → Daemon X → Daemon X
  poll_services [] d = d
  poll_services (s ∷ ss) d = poll_services ss (poll_service s d)

  -- `PollOnce`.
  unfoldable pub poll_once :
      List (PathConfig × Moment) → List (ServiceConfig × Moment) → Daemon X → Daemon X
  poll_once paths services d = poll_services services (poll_disk_paths paths d)
