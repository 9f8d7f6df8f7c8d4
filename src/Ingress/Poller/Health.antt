-- ===== src/Ingress/Poller/Health.antt =====
-- What the checks of the poller (internal/ingress/poller.go) find.
use autonomous_remediation_e.Prelude.{
  ◌≡◌, ◌≢◌, refl, ◌⊎◌, Bool, true, false, String, Option, none, some, codes, str_eq, str_eq_iff,
  Bool-cases, inl, inr,
}
use autonomous_remediation_e.Prelude.Strings.{trim_space, atoi, or_no_pid}
use autonomous_remediation_e.Host.{World, System}
use autonomous_remediation_e.Verifier.{
  CheckError, check_disk_free, check_process_alive, check_http_health,
}
use autonomous_remediation_e.Runbooks.Files.{read_file}
use autonomous_remediation_e.Config.Settings.{PathConfig, ServiceConfig}
use autonomous_remediation_e.Ingress.Poller.{Format, http_reason, pid_reason, failure_reason}

module _ {X : Type 0} (os : System X) where
  -- The disk of a path is as free as configured, and that could be found out.
  unfoldable pub IsFree : PathConfig → World X → Type 0
  IsFree pc w = check_disk_free os pc.path pc.min_free_pct w ≡ (true, none)

  -- A service is healthy, with the host after the check: its URL answers, or, where it has none, the
  -- process of its file is alive, or it has neither.
  pub data IsHealthy (sc : ServiceConfig) (w : World X) : World X → Type 0 where
    answers :
        {w' : World X}
        → sc.health_url ≢ ""
        → check_http_health os sc.health_url 1500000000 200 w ≡ (w', true, none)
        → IsHealthy sc w w'
    alive :
        {content : String}
        → sc.health_url ≡ ""
        → sc.pid_file ≢ ""
        → read_file os sc.pid_file w ≡ some content
        → check_process_alive os (or_no_pid (atoi (trim_space (codes content)))) w ≡ true
        → IsHealthy sc w w
    unchecked : sc.health_url ≡ "" → sc.pid_file ≡ "" → IsHealthy sc w w

  -- It is not: its URL does not answer, or its file cannot be read, or the process is dead.
  pub data IsUnhealthy (sc : ServiceConfig) (w : World X) : World X → Type 0 where
    silent :
        {w' : World X} {passed : Bool} {error : Option CheckError}
        → sc.health_url ≢ ""
        → check_http_health os sc.health_url 1500000000 200 w ≡ (w', passed, error)
        → (passed ≡ false) ⊎ (error ≢ none)
        → IsUnhealthy sc w w'
    unreadable :
        sc.health_url ≡ ""
        → sc.pid_file ≢ ""
        → read_file os sc.pid_file w ≡ none
        → IsUnhealthy sc w w
    dead :
        {content : String}
        → sc.health_url ≡ ""
        → sc.pid_file ≢ ""
        → read_file os sc.pid_file w ≡ some content
        → check_process_alive os (or_no_pid (atoi (trim_space (codes content)))) w ≡ false
        → IsUnhealthy sc w w

  -- What the check of a service finds.
  unfoldable pub Found : ServiceConfig → World X → World X × Option String → Type 0
  Found sc w (w', none) = IsHealthy sc w w'
  Found sc w (w', some reason) = IsUnhealthy sc w w'

module _ {X : Type 0} (os : System X) (f : Format) where
  http_reason-Found :
      (sc : ServiceConfig) (w w' : World X) (passed : Bool) (error : Option CheckError)
      → sc.health_url ≢ ""
      → check_http_health os sc.health_url 1500000000 200 w ≡ (w', passed, error)
      → Found os sc w (w', http_reason f passed error)
  unfolding http_reason Found
  http_reason-Found sc w w' true none given found = answers given found
  http_reason-Found sc w w' true (some x) given found = silent given found (inr (λ h. cc h))
  http_reason-Found sc w w' false none given found = silent given found (inl refl)
  http_reason-Found sc w w' false (some x) given found = silent given found (inl refl)

  pid_reason-Found :
      (sc : ServiceConfig) (w : World X) (content : Option String)
      → sc.health_url ≡ ""
      → sc.pid_file ≢ ""
      → read_file os sc.pid_file w ≡ content
      → Found os sc w (w, pid_reason os f sc.pid_file content w)
  unfolding pid_reason Found
  pid_reason-Found sc w none no_url given found = unreadable no_url given found
  pid_reason-Found sc w (some content) no_url given found =
      let pid = or_no_pid (atoi (trim_space (codes content))) in
      elim (Bool-cases (check_process_alive os pid w)) [
        | inl lives ↦ rw lives (alive no_url given found lives)
        | inr gone ↦ rw gone (dead no_url given found gone)
      ]

  pub failure_reason-Found :
      (sc : ServiceConfig) (w : World X) → Found os sc w (failure_reason os f sc w)
  unfolding failure_reason Found
  failure_reason-Found sc w = elim (Bool-cases (str_eq sc.health_url "")) [
    | inr given ↦
        let (w', passed, error) = check_http_health os sc.health_url 1500000000 200 w in
        rw given (
          http_reason-Found sc w w' passed error
            (λ h. cc (given, (str_eq_iff sc.health_url "").1 h)) refl)
    | inl no_url ↦ elim (Bool-cases (str_eq sc.pid_file "")) [
      | inr given ↦
          rw (no_url, given)
            (pid_reason-Found sc w (read_file os sc.pid_file w)
              ((str_eq_iff sc.health_url "").0 no_url)
              (λ h. cc (given, (str_eq_iff sc.pid_file "").1 h)) refl)
      | inl no_file ↦
          rw (no_url, no_file)
            (unchecked ((str_eq_iff sc.health_url "").0 no_url)
              ((str_eq_iff sc.pid_file "").0 no_file))
    ]
  ]
