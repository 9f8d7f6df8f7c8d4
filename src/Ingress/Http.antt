-- ===== src/Ingress/Http.antt =====
-- internal/ingress/http_server.go: the handlers of the HTTP server. A body, a header and a secret are
-- byte strings. HMAC-SHA256 and the parser of JSON are parameters.
pub mod Admission
mod Tests
use autonomous_remediation_e.Prelude.{
  ℕ, ◌+◌, ◌-◌, ◌^◌, Bool, true, false, ◌&&◌, ◌||◌, not, List, [], ◌∷◌, ◌++◌, Option, none, some,
  String, Bytes, bytes_eq, codes, length, leb, ltb, ◌==◌, str_eq, if◌then◌else◌, map, ◌⊎◌, inl, inr,
}
use autonomous_remediation_e.Prelude.Assoc.{Assoc}
use autonomous_remediation_e.Prelude.Strings.{trim_prefix, to_lower}
use autonomous_remediation_e.Damping.{ResourceState}
use autonomous_remediation_e.Lock.{hex}
use autonomous_remediation_e.Host.{System}
use autonomous_remediation_e.Engine.{Alert, Runbook, Engine, RemediationResult, Readings, Texts}
use autonomous_remediation_e.Engine.Catalog.{list_runbooks}
use autonomous_remediation_e.Engine.Lifecycle.{HealthAnswers, is_healthy}
use autonomous_remediation_e.Ingress.Processor.{Daemon, process}
use autonomous_remediation_e.Ingress.Metrics.{Metrics}
use autonomous_remediation_e.Ingress.Metrics.Render.{Row, render_prometheus}

-- `HTTPServer`, as far as its handlers read it, with what it takes from the libraries.
pub record HttpServer : Type 0 where
  pub hmac_secret : Bytes
  -- The key, and the message.
  pub hmac_sha256 : Bytes → Bytes → Bytes
  -- `json.Unmarshal` into an alert, or its error.
  pub parse_alert : Bytes → Alert ⊎ String

pub record HttpRequest : Type 0 where
  pub method : String
  pub body : Bytes
  -- Whether the connection breaks before the end of the body.
  pub broken : Bool
  -- `X-Signature-256` and `X-Remediation-Signature`; a header that is missing is empty.
  pub signature : Bytes
  pub remediation_signature : Bytes

-- A runbook in the answer of `/v1/status`.
pub record RunbookSummary : Type 0 where
  pub id : String
  pub name : String
  pub target_resource_id : String
  pub severity : String

pub data Reply : Type 0 where
  error : String → Reply
  malformed_json : String → Reply
  executed : RemediationResult → Reply
  unhealthy : String → Reply
  healthy : ℕ → Reply
  -- The time since the start, the runbooks, the states of the damping and the last hash.
  status : ℕ → List RunbookSummary → Assoc ResourceState → Bytes → Reply
  metrics_text : List Row → Reply
  nothing : Reply

pub record Response : Type 0 where
  pub code : ℕ
  pub reply : Reply

-- 1 MB.
abbrev pub max_body : ℕ
max_body = 1048576

-- `io.ReadAll` of a body that `http.MaxBytesReader` limits.
unfoldable pub read_body : HttpRequest → Option Bytes
read_body req = if req.broken || ltb max_body (length req.body) then none else some req.body

abbrev pub or_else_bytes : Bytes → Bytes → Bytes
or_else_bytes [] other = other
or_else_bytes (c ∷ cs) other = c ∷ cs

-- The signature that a request carries; empty, where there is none.
unfoldable pub signature_of : HttpRequest → Bytes
signature_of req =
    trim_prefix (codes "sha256=") (or_else_bytes req.signature req.remediation_signature)

-- Why a body is not accepted as signed. Without a secret, no signature is looked at. No letter
-- outside ASCII becomes a digit of a hexadecimal number in lower case.
unfoldable pub signature_error : HttpServer → HttpRequest → Bytes → Option String
signature_error s req body =
    if bytes_eq s.hmac_secret []
    then none
    else if bytes_eq (signature_of req) []
    then some "missing signature in X-Signature-256 header"
    else if bytes_eq (map to_lower (signature_of req))
        (map to_lower (hex (s.hmac_sha256 s.hmac_secret body)))
    then none
    else some "invalid HMAC signature"

-- The fields that the handler fills in, at a time.
abbrev pub received : ℕ → Alert → Alert
received now alert = record alert {
  received_at = if alert.received_at == 0 then now else alert.received_at;
  source = if str_eq alert.source "" then "http_webhook" else alert.source;
}

module _ {X : Type 0} (os : System X) (texts : Texts) (e : Engine X) (s : HttpServer) where
  -- The engine takes the alert; whatever it says, the answer is 200.
  unfoldable pub accept_alert : Readings → ℕ → Alert → Daemon X → Daemon X × Response
  accept_alert rs now alert d =
      let (d', result) = process os texts e rs (received now alert) d in
      (d', record { code = 200; reply = executed result })

  -- With an alert, or with the parser's error.
  unfoldable pub parsed : Readings → ℕ → Alert ⊎ String → Daemon X → Daemon X × Response
  parsed rs now (inr message) d = (d, record { code = 400; reply = malformed_json message })
  parsed rs now (inl alert) d =
      if str_eq alert.id "" || str_eq alert.resource_id ""
      then (d, record { code = 422; reply = error "alert 'id' and 'resource_id' are required" })
      else accept_alert rs now alert d

  -- After the check of the signature, by its error.
  unfoldable pub authenticated :
      Readings → ℕ → Bytes → Option String → Daemon X → Daemon X × Response
  authenticated rs now body (some message) d = (d, record { code = 401; reply = error message })
  authenticated rs now body none d = parsed rs now (s.parse_alert body) d

  -- With a body, or without.
  unfoldable pub with_body :
      Readings → ℕ → HttpRequest → Option Bytes → Daemon X → Daemon X × Response
  with_body rs now req none d =
      (d, record { code = 400; reply = error "failed to read request body or exceeded 1MB limit" })
  with_body rs now req (some body) d = authenticated rs now body (signature_error s req body) d

  -- `handleAlerts`.
  unfoldable pub handle_alerts : Readings → ℕ → HttpRequest → Daemon X → Daemon X × Response
  handle_alerts rs now req d =
      if str_eq req.method "POST"
      then with_body rs now req (read_body req) d
      else (d, record { code = 405; reply = error "method not allowed" })

abbrev health_response : ℕ → Option String → Response
health_response uptime none = record { code = 200; reply = healthy uptime }
health_response uptime (some reason) = record { code = 503; reply = unhealthy reason }

abbrev rendered : ℕ → Option Metrics → Reply
rendered uptime none = nothing
rendered uptime (some m) = metrics_text (render_prometheus uptime m)

abbrev not_allowed : Response
not_allowed = record { code = 405; reply = error "method not allowed" }

module _ {X : Type 0} where
  abbrev summary : Runbook X → RunbookSummary
  summary rb = record {
    id = rb.id;
    name = rb.name;
    target_resource_id = rb.target_resource_id;
    severity = rb.severity;
  }

  -- `handleHealthz`, `handleStatus` and `handleMetrics`; the first number is the time since the start.
  unfoldable pub handle_healthz : Engine X → ℕ → HealthAnswers → HttpRequest → Response
  handle_healthz e uptime answers req =
      if str_eq req.method "GET" then health_response uptime (is_healthy answers e) else not_allowed

  unfoldable pub handle_status : Engine X → ℕ → HttpRequest → Daemon X → Response
  handle_status e uptime req d =
      if str_eq req.method "GET"
      then record {
        code = 200;
        reply =
            status uptime (map summary (list_runbooks e.runbooks)) d.state.damping.states
              d.state.ledger.last_hash;
      }
      else not_allowed

  unfoldable pub handle_metrics : ℕ → HttpRequest → Daemon X → Response
  handle_metrics uptime req d =
      if str_eq req.method "GET"
      then record { code = 200; reply = rendered uptime d.metrics }
      else not_allowed
