-- ===== src/Ingress/Tests.antt =====
-- Runs of internal/ingress on the small engine of the tests.
use autonomous_remediation_e.Prelude.{
  ℕ, ◌≡◌, refl, true, false, [], ◌∷◌, List, none, some, codes, inl,
}
use autonomous_remediation_e.Fsm.{committed, rolled_back}
use autonomous_remediation_e.Host.Toy.{toy}
use autonomous_remediation_e.Engine.{Alert, RemediationResult}
use autonomous_remediation_e.Engine.Toy.{engine, resting, texts, readings, alert}
use autonomous_remediation_e.Engine.Remediate.{remediate}
use autonomous_remediation_e.Config.Settings.{PathConfig, ServiceConfig}
use autonomous_remediation_e.Ingress.Metrics.{new_metrics}
use autonomous_remediation_e.Ingress.Processor.{Daemon, process}
use autonomous_remediation_e.Ingress.Processor.Kinds.{Counted, remediate-Counted}
use autonomous_remediation_e.Ingress.Http.{HttpServer, HttpRequest, handle_alerts}
use autonomous_remediation_e.Ingress.Http.Admission.{Handled, handle_alerts-Handled}
use autonomous_remediation_e.Ingress.Socket.{Peer, Codec, handle_conn, executed}
use autonomous_remediation_e.Ingress.Socket.Defaults.{IsCompleted, handle_conn-IsCompleted}
use autonomous_remediation_e.Ingress.Poller.{Format, Moment}

abbrev daemon : Daemon ℕ
daemon = record { state = resting; metrics = some new_metrics }

-- A server whose signature of a body is the body, and for which every body is the same alert.
abbrev server : HttpServer
server = record {
  hmac_secret = codes "key";
  hmac_sha256 = λ key body. body;
  parse_alert = λ body. inl alert;
}

abbrev request : HttpRequest
request = record {
  method = "POST";
  body = codes "Z";
  broken = false;
  signature = codes "sha256=5A";
  remediation_signature = [];
}

handle_alerts-Handled_example :
    Handled toy texts engine server readings 5 request daemon
      (handle_alerts toy texts engine server readings 5 request daemon)
handle_alerts-Handled_example =
    handle_alerts-Handled toy texts engine server readings 5 request daemon

abbrev result : RemediationResult
result = record {
  tx_id = "tx";
  runbook_id = "RBK-DISK-001";
  resource_id = "/a";
  final_state = rolled_back;
  success = false;
  rolled_back = true;
  execution_res = none;
  duration = 70000000;
  transitions = [];
  error = none;
}

abbrev two_results : List RemediationResult
two_results = result ∷ record result { final_state = committed; rolled_back = false } ∷ []

remediate-Counted_example : Counted (remediate toy texts engine readings (some alert) resting)
remediate-Counted_example = remediate-Counted toy texts engine readings (some alert) resting

abbrev codec : Codec
codec = record { decode = λ s. inl alert; itoa = λ n. "7" }

abbrev peer : Peer
peer = record { pid = 7; uid = 7; gid = 7 }

handle_conn-IsCompleted_example :
    (given : Alert) × IsCompleted codec peer alert given
    × (handle_conn toy texts engine codec readings "sock-1" 5 (some peer) (codes "{}") daemon ≡ (
      (process toy texts engine readings given daemon).0,
      executed (process toy texts engine readings given daemon).1,
    ))
handle_conn-IsCompleted_example =
    handle_conn-IsCompleted toy texts engine codec readings "sock-1" 5 peer (codes "{}") alert
      daemon (λ e. cc e) refl

abbrev format : Format
format = record {
  percentage = λ n. "80";
  current_free = λ p. "50";
  error = λ e. "";
  unreadable_pid = λ p. p;
  dead = λ n. "dead";
}

abbrev moment : Moment
moment = record { now = 5; nanos = "9"; readings = readings }

abbrev paths : List (PathConfig × Moment)
paths = (record { path = "/a"; min_free_pct = 80 }, moment) ∷ []

abbrev services : List (ServiceConfig × Moment)
services = (record { name = "svc"; health_url = ""; pid_file = "/a"; port = 80 }, moment) ∷ []
