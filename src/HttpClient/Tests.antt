-- ===== src/HttpClient/Tests.antt =====
-- The theorem about requests at a concrete input.
use caaspay_core.Prelude.{
  ◌≡◌, refl, sym, ◌∙◌, inl, inr, Bool, true, false, Option, none, some, Bytes, Text, codes, [], ◌∷◌,
  Result, ok, pos, text_eq, ◌^◌,
}
use caaspay_core.Prelude.Dict.{Dict, get, put}
use caaspay_core.Metrics.{
  Kind, Metrics, fresh_metrics, registry, with_registry, add, create, get_or_create, measure,
  increment, increment_tagged, observe_histogram, record_timing,
}
use caaspay_core.HttpClient.{
  ComplianceReporter, track_event, Request, Http, set_headers, make_request, finish_raw, after_send,
  send_raw, request_http_raw, with_content_type, request_encoded, request_http,
}
use caaspay_core.HttpClient.Requests.{IsAnswered, request_http-IsAnswered}
use caaspay_core.HttpClient.Headers.{Has, IsMap}
use caaspay_core.HttpClient.Made.{IsPlain, IsMade}

-- A server that answers with the body of the request.
abbrev mirror : Http Request
mirror = record {
  refuses = λ method url. none;
  canonical = λ k. k;
  send = λ r. ok r;
  read_all = λ r. ok r.body;
}

abbrev reporting : ComplianceReporter
reporting = record { enabled = true; app_name = codes "app"; environment = [] }

abbrev itself : Bytes → Result Bytes
itself b = ok b

abbrev all_made : Kind → Text → Bool
all_made kind name = true

-- The caller's own header.
abbrev own : Dict Text
own = (codes "X-Id", codes "7") ∷ []

-- The metrics when the request is sent.
abbrev before : Metrics
before = record (fresh_metrics true true false) {
  counters = (codes "http.request", codes "http.request") ∷ [];
  histograms = (codes "operation_duration", codes "operation_duration") ∷ [];
  measured =
      record {
        kind = Kind.histogram;
        name = codes "operation_duration";
        amount = pos (10 ^ 6);
        attrs = (codes "operation", codes "http.request") ∷ [];
      }
      ∷ record { kind = Kind.counter; name = codes "http.request"; amount = pos 1; attrs = [] }
      ∷ [];
}

-- What the metrics are after the request.
abbrev counted : Option Metrics
counted =
    (send_raw all_made mirror reporting (codes "ua") (codes "POST") (codes "u") (codes "{}")
      (with_content_type all_made mirror reporting (codes "ua") itself itself (some own)) (pos 5)
      none before).1

own-IsMap : IsMap own
own-IsMap = ((λ w h. h), tt)

own-apart : (j k w v : Text) → Has j w own → Has k v own → j ≡ k → (j ≡ k) × (w ≡ v)
own-apart j k w v (inl (_, a)) (inl (_, b)) q = (q, sym a ∙ b)
own-apart j k w v (inl _) (inr none_there) q = elim none_there [ ]
own-apart j k w v (inr none_there) h q = elim none_there [ ]

own-IsPlain : IsPlain mirror own
own-IsPlain = record { apart = own-apart; spelled = λ j w h q. q }

request_http-IsAnswered_example :
    (request : Request) × (resp : Request) × (raw : Bytes) × IsMade all_made mirror reporting
      (codes "ua")
      (codes "POST")
      (codes "u")
      own
      request
    × (itself (codes "{}") ≡ ok request.body)
    × IsAnswered all_made mirror reporting (codes "ua") request resp raw
    × (itself raw ≡ ok (codes "{}"))
unfolding request_http request_encoded request_http_raw send_raw after_send finish_raw make_request
    set_headers with_content_type track_event increment increment_tagged observe_histogram
    record_timing measure get_or_create create add registry with_registry get put text_eq
request_http-IsAnswered_example =
    request_http-IsAnswered all_made mirror reporting (codes "ua") (codes "POST") (codes "u")
      (pos 5) itself itself (codes "{}") (some own) (fresh_metrics true true false) (codes "{}")
      counted own-IsMap own-IsPlain refl
