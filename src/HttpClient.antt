-- ===== src/HttpClient.antt =====
-- base/microservice/internal/httpclient/http_client.go and
-- base/microservice/internal/compliance/compliance_reporting.go: a request with what it records. The
-- state is that of the metrics, `none` their panic. net/http and encoding/json are parameters; the
-- logs and spans are left out.
pub mod Headers
pub mod Made
pub mod Requests
mod Tests
use caaspay_core.Prelude.{
  ℕ, ◌*◌, ◌^◌, Bool, true, false, Option, none, some, Text, Bytes, codes, List, [], ◌∷◌, Error,
  errorf, Result, ok, err, ℤ, pos, is_empty, if◌then◌else◌,
}
use caaspay_core.Prelude.Dict.{Dict, empty, put}
use caaspay_core.Config.{Config}
use caaspay_core.Metrics.{
  Kind, Metrics, increment, increment_tagged, observe_histogram, record_timing,
}

pub record ComplianceReporter : Type 0 where
  pub enabled : Bool
  pub app_name : Text
  pub environment : Text

unfoldable pub new_compliance_reporter : {D : Type 0} → Config D → ComplianceReporter
new_compliance_reporter c = record {
  enabled = c.compliance_enabled;
  app_name = c.app_name;
  environment = c.env;
}

abbrev pub millisecond : ℤ
millisecond = pos (10 ^ 6)

abbrev pub and_then : Option Metrics → (Metrics → Option Metrics) → Option Metrics
and_then none f = none
and_then (some m) f = f m

module _ (makes : Kind → Text → Bool) where
  unfoldable pub track_event : ComplianceReporter → Text → Metrics → Option Metrics
  track_event r event m =
      if r.enabled
      then and_then (increment makes event [] m) (record_timing makes event millisecond)
      else some m

  -- `ValidatePCICompliance`; the duration is that of the two tests.
  unfoldable pub validate_pci_compliance :
      {D : Type 0}
      → Config D
      → ComplianceReporter
      → (duration : ℤ) → Metrics
      → Option Error × Option Metrics
  unfolding track_event
  validate_pci_compliance c r duration m =
      if c.pci_enabled
      then (if is_empty c.encryption_key
          then (some (errorf (codes "encryption key not configured")), some m)
          else (
            none,
            and_then (record_timing makes (codes "compliance.pci_check_duration") duration m)
                (track_event r (codes "compliance.pci_validated")),
          ))
      else (some (errorf (codes "PCI compliance not enabled")), some m)

-- What net/http is given.
pub record Request : Type 0 where
  pub method : Text
  pub url : Text
  pub body : Bytes
  pub headers : Dict Text

-- http.NewRequestWithContext with its error, the key under which Header.Set puts a header, the answer
-- to a request, and io.ReadAll of its body. `R` are the responses.
pub record Http (R : Type 0) : Type 0 where
  pub refuses : (method url : Text) → Option Error
  pub canonical : Text → Text
  pub send : Request → Result R
  pub read_all : R → Result Bytes

module _ {R : Type 0} (makes : Kind → Text → Bool) (http : Http R) (reporter : ComplianceReporter)
    (user_agent : Text) where
  unfoldable pub set_headers : Dict Text → Dict Text → Dict Text
  set_headers [] set = set
  set_headers ((k, v) ∷ headers) set = set_headers headers (put (http.canonical k) v set)

  unfoldable pub make_request : (method url : Text) → Bytes → (headers : Dict Text) → Request
  unfolding set_headers
  make_request method url body headers = record {
    method = method;
    url = url;
    body = body;
    headers = set_headers headers (put (codes "User-Agent") user_agent empty);
  }

  abbrev pub request_tags : (method url : Text) → List Text
  request_tags method url = codes "method" ∷ method ∷ codes "url" ∷ url ∷ []

  -- What follows the answer; a body that cannot be read is not counted at all, and its response, which
  -- the source returns with the error, is left out.
  unfoldable pub finish_raw :
      (method url : Text) (duration : ℤ)
      → R
      → Result Bytes
      → Metrics
      → Result (R × Bytes) × Option Metrics
  finish_raw method url duration resp (err x) m = (err x, some m)
  finish_raw method url duration resp (ok body) m = (
    ok (resp, body),
    and_then (increment_tagged makes (codes "http.requests.total") (request_tags method url) m) (
        observe_histogram makes (codes "http.request.duration") duration (request_tags method url)),
  )

  unfoldable pub after_send :
      (method url : Text) (duration : ℤ) → Result R → Metrics → Result (R × Bytes) × Option Metrics
  unfolding finish_raw
  after_send method url duration (err x) m =
      (err x, increment_tagged makes (codes "http.requests.failed") (request_tags method url) m)
  after_send method url duration (ok resp) m =
      finish_raw method url duration resp (http.read_all resp) m

  unfoldable pub send_raw :
      (method url : Text) (body : Bytes) (headers : Dict Text) (duration : ℤ)
      → Option Error
      → Metrics
      → Result (R × Bytes) × Option Metrics
  unfolding make_request after_send
  send_raw method url body headers duration (some x) m = (err x, some m)
  send_raw method url body headers duration none m =
      after_send method url duration (http.send (make_request method url body headers)) m

  abbrev pub raw_from :
      (method url : Text) (body : Bytes) (headers : Dict Text) (duration : ℤ)
      → Option Metrics
      → Option (Result (R × Bytes) × Option Metrics)
  raw_from method url body headers duration none = none
  raw_from method url body headers duration (some m) =
      some (send_raw method url body headers duration (http.refuses method url) m)

  -- `RequestHTTPRaw`; an outer `none` is a panic before the request.
  unfoldable pub request_http_raw :
      (method url : Text) (body : Bytes) (headers : Dict Text) (duration : ℤ)
      → Metrics
      → Option (Result (R × Bytes) × Option Metrics)
  unfolding send_raw
  request_http_raw method url body headers duration m =
      raw_from method url body headers duration
        (track_event makes reporter (codes "http.request") m)

  -- The type of the input and the output, by encoding/json.
  module _ {A B : Type 0} (marshal : A → Result Bytes) (unmarshal : Bytes → Result B) where
    abbrev pub headers_or_new : Option (Dict Text) → Dict Text
    headers_or_new none = empty
    headers_or_new (some headers) = headers

    -- The map that is sent; where the caller gave a map, it is the caller's own that changes.
    unfoldable pub with_content_type : Option (Dict Text) → Dict Text
    with_content_type headers =
        put (codes "Content-Type") (codes "application/json") (headers_or_new headers)

    abbrev pub decode_response : Result (R × Bytes) → Result B
    decode_response (err x) = err x
    decode_response (ok (resp, body)) = unmarshal body

    abbrev pub decoded_reply :
        Option (Result (R × Bytes) × Option Metrics) → Option (Result B × Option Metrics)
    decoded_reply none = none
    decoded_reply (some (reply, m)) = some (decode_response reply, m)

    unfoldable pub request_encoded :
        (method url : Text)
        → Option (Dict Text)
        → (duration : ℤ) → Result Bytes
        → Metrics
        → Option (Result B × Option Metrics)
    unfolding request_http_raw with_content_type
    request_encoded method url headers duration (err x) m = some (err x, some m)
    request_encoded method url headers duration (ok body) m =
        decoded_reply (request_http_raw method url body (with_content_type headers) duration m)

    -- `RequestHTTP`
    unfoldable pub request_http :
        (method url : Text)
        → A
        → Option (Dict Text)
        → (duration : ℤ) → Metrics
        → Option (Result B × Option Metrics)
    unfolding request_encoded
    request_http method url input headers duration m =
        request_encoded method url headers duration (marshal input) m
