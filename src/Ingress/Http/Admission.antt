-- ===== src/Ingress/Http/Admission.antt =====
-- Which requests `handleAlerts` of internal/ingress/http_server.go hands to the engine.
use autonomous_remediation_e.Prelude.{
  ℕ, ◌≤◌, ◌≡◌, ◌≢◌, refl, false, [], Option, none, some, String, Bytes, bytes_eq, bytes_eq_iff,
  length, str_eq, str_eq_iff, subst, map, ◌⊎◌, inl, inr, arith, Bool-cases,
}
use autonomous_remediation_e.Prelude.Strings.{to_lower}
use autonomous_remediation_e.Lock.{hex}
use autonomous_remediation_e.Host.{System}
use autonomous_remediation_e.Engine.{Alert, Engine, Readings, Texts}
use autonomous_remediation_e.Ingress.Processor.{Daemon}
use autonomous_remediation_e.Ingress.Http.{
  HttpServer, HttpRequest, Response, max_body, read_body, signature_of, signature_error,
  accept_alert, parsed, authenticated, with_body, handle_alerts,
}

-- What the operator of a server with a secret wants of a request: the HMAC of its whole body under
-- the secret, in hexadecimal digits of either case.
abbrev pub IsSigned : HttpServer → HttpRequest → Type 0
IsSigned s req =
    (s.hmac_secret ≡ [])
    ⊎ ((signature_of req ≢ [])
        × (map to_lower (signature_of req)
            ≡ map to_lower (hex (s.hmac_sha256 s.hmac_secret req.body))))

-- A request that carries an alert that may be acted on.
pub record IsAdmitted (s : HttpServer) (req : HttpRequest) (alert : Alert) : Type 0 where
  pub posted : req.method ≡ "POST"
  pub whole : req.broken ≡ false
  pub small : length req.body ≤ max_body
  pub signed : IsSigned s req
  pub parses : s.parse_alert req.body ≡ inl alert
  pub named : alert.id ≢ ""
  pub targeted : alert.resource_id ≢ ""

signature_error-none :
    (s : HttpServer) (req : HttpRequest) → signature_error s req req.body ≡ none → IsSigned s req
unfolding signature_error
signature_error-none s req h =
    let mine = map to_lower (signature_of req) in
    let theirs = map to_lower (hex (s.hmac_sha256 s.hmac_secret req.body)) in
    elim (Bool-cases (bytes_eq s.hmac_secret [])) [
      | inl e ↦ inl ((bytes_eq_iff _ _).0 e)
      | inr secret ↦ elim (Bool-cases (bytes_eq (signature_of req) [])) [
        | inl missing ↦ absurd (ground arith)
        | inr there ↦ elim (Bool-cases (bytes_eq mine theirs)) [
          | inl same ↦ inr (
            λ e. cc (there, (bytes_eq_iff (signature_of req) []).1 e),
            (bytes_eq_iff mine theirs).0 same,
          )
          | inr other ↦ absurd (ground arith)
        ]
      ]
    ]

IsSigned-signature_error :
    (s : HttpServer) (req : HttpRequest) → IsSigned s req → signature_error s req req.body ≡ none
unfolding signature_error
IsSigned-signature_error s req (inl open_to_all) = ground (arith, bytes_eq_iff s.hmac_secret [])
IsSigned-signature_error s req (inr (there, same)) = ground (
  arith,
  bytes_eq_iff (signature_of req) [],
  bytes_eq_iff (map to_lower (signature_of req))
      (map to_lower (hex (s.hmac_sha256 s.hmac_secret req.body))),
)

read_body-whole :
    (req : HttpRequest)
    → req.broken ≡ false
    → length req.body ≤ max_body
    → read_body req ≡ some req.body
unfolding read_body
read_body-whole req p q = ground arith

read_body-some :
    (req : HttpRequest) (body : Bytes)
    → read_body req ≡ some body
    → (req.broken ≡ false) × (length req.body ≤ max_body) × (body ≡ req.body)
unfolding read_body
read_body-some req body h = (ground arith, ground arith, ground arith)

module _ {X : Type 0} (os : System X) (texts : Texts) (e : Engine X) (s : HttpServer)
    (rs : Readings) (now : ℕ) (req : HttpRequest) (d : Daemon X) where
  -- The engine has the alert of an admitted request; or the request is not admitted, nothing has
  -- changed and the code is not 200.
  pub data Handled (result : Daemon X × Response) : Type 0 where
    taken :
        (alert : Alert)
        → IsAdmitted s req alert
        → result ≡ accept_alert os texts e s rs now alert d
        → Handled result
    turned_away :
        ((alert : Alert) → ¬ IsAdmitted s req alert)
        → result.0 ≡ d
        → result.1.code ≢ 200
        → Handled result

  parsed_stage :
      (p : Alert ⊎ String)
      → s.parse_alert req.body ≡ p
      → req.method ≡ "POST"
      → (req.broken ≡ false) × (length req.body ≤ max_body)
      → IsSigned s req
      → Handled (parsed os texts e s rs now p d)
  unfolding parsed
  parsed_stage (inr message) parse post body signed =
      turned_away (λ alert a. cc (a.parses, parse)) refl (omega arith)
  parsed_stage (inl alert) parse post body signed = elim (Bool-cases (str_eq alert.id "")) [
    | inl blank ↦ rw blank (
        turned_away
          (λ other a.
            let same : alert ≡ other = cc (a.parses, parse) in
            a.named (subst (λ x. x.id ≡ "") same ((str_eq_iff alert.id "").0 blank)))
          refl (omega arith))
    | inr named ↦ elim (Bool-cases (str_eq alert.resource_id "")) [
      | inl blank ↦
          rw (named, blank)
            (turned_away
              (λ other a.
                let same : alert ≡ other = cc (a.parses, parse) in
                a.targeted (
                  subst (λ x. x.resource_id ≡ "") same ((str_eq_iff alert.resource_id "").0 blank)))
              refl (omega arith))
      | inr targeted ↦
          rw (named, targeted)
            (taken alert
              (record {
                posted = post;
                whole = body.0;
                small = body.1;
                signed = signed;
                parses = parse;
                named = λ h. cc (named, (str_eq_iff alert.id "").1 h);
                targeted = λ h. cc (targeted, (str_eq_iff alert.resource_id "").1 h);
              })
              refl)
    ]
  ]

  signed_stage :
      (r : Option String)
      → signature_error s req req.body ≡ r
      → req.method ≡ "POST"
      → (req.broken ≡ false) × (length req.body ≤ max_body)
      → Handled (authenticated os texts e s rs now req.body r d)
  unfolding authenticated
  signed_stage (some message) h post body =
      turned_away (λ alert a. cc (IsSigned-signature_error s req a.signed, h)) refl (omega arith)
  signed_stage none h post body =
      parsed_stage (s.parse_alert req.body) refl post body (signature_error-none s req h)

  body_stage :
      (b : Option Bytes)
      → read_body req ≡ b
      → req.method ≡ "POST"
      → Handled (with_body os texts e s rs now req b d)
  unfolding with_body
  body_stage none h post =
      turned_away (λ alert a. cc (read_body-whole req a.whole a.small, h)) refl (omega arith)
  body_stage (some body) h post =
      let (whole, small, same) = read_body-some req body h in
      rw same (signed_stage (signature_error s req req.body) refl post (whole, small))

  -- A request to `/v1/alerts` reaches the engine exactly if it is a POST whose body was read whole,
  -- is at most 1 MB, carries the HMAC of the body where the server has a secret, and parses to an
  -- alert with an id and a resource: then the answer and the new state are those of the engine's
  -- run on that alert. In every other case the state is unchanged and the code is not 200.
  pub handle_alerts-Handled : Handled (handle_alerts os texts e s rs now req d)
  unfolding handle_alerts
  handle_alerts-Handled = elim (Bool-cases (str_eq req.method "POST")) [
    | inl post ↦ rw post (body_stage (read_body req) refl ((str_eq_iff req.method "POST").0 post))
    | inr other ↦ rw other (
        turned_away (λ alert a. cc (other, (str_eq_iff req.method "POST").1 a.posted)) refl
          (omega arith))
  ]
