-- ===== src/HttpClient/Requests.antt =====
-- What a request that succeeds went through.
use caaspay_core.Prelude.{
  [], ◌≡◌, refl, sym, ap, ◌∙◌, Bool, Option, none, some, some-injective, Text, Bytes, codes, arith,
  Error, Result, ok, err, ℤ,
}
use caaspay_core.Prelude.Dict.{Dict}
use caaspay_core.Metrics.{Kind, Metrics}
use caaspay_core.HttpClient.{
  ComplianceReporter, track_event, Request, Http, make_request, finish_raw, after_send, send_raw,
  raw_from, request_http_raw, with_content_type, decode_response, decoded_reply, request_encoded,
  request_http,
}
use caaspay_core.HttpClient.Headers.{IsMap}
use caaspay_core.HttpClient.Made.{given, IsPlain, IsMade, make_request-IsMade}

module _ {R : Type 0} (makes : Kind → Text → Bool) (http : Http R) (reporter : ComplianceReporter)
    (user_agent : Text) where
  -- The request was made, answered, and its answer read.
  pub record IsAnswered (request : Request) (resp : R) (raw : Bytes) : Type 0 where
    pub accepted : http.refuses request.method request.url ≡ none
    pub sent : http.send request ≡ ok resp
    pub read : http.read_all resp ≡ ok raw

  module _ (method url : Text) (duration : ℤ) where
    finish_raw-ok :
        (r : R) (o : Result Bytes) (m : Metrics) (resp : R) (raw : Bytes)
        → (finish_raw makes http reporter user_agent method url duration r o m).0 ≡ ok (resp, raw)
        → (r ≡ resp) × (o ≡ ok raw)
    unfolding finish_raw
    finish_raw-ok r (err x) m resp raw h = absurd (ground (arith, h))
    finish_raw-ok r (ok body) m resp raw h = (ground (arith, h), ground (arith, h))

    after_send-ok :
        (o : Result R) (m : Metrics) (resp : R) (raw : Bytes)
        → (after_send makes http reporter user_agent method url duration o m).0 ≡ ok (resp, raw)
        → (o ≡ ok resp) × (http.read_all resp ≡ ok raw)
    unfolding after_send
    after_send-ok (err x) m resp raw h = absurd (ground (arith, h))
    after_send-ok (ok r) m resp raw h =
        let (same, read) = finish_raw-ok r (http.read_all r) m resp raw h in
        (ap ok same, ap http.read_all (sym same) ∙ read)

    module _ (body : Bytes) (headers : Dict Text) where
      send_raw-ok :
          (o : Option Error) (m : Metrics) (resp : R) (raw : Bytes)
          → http.refuses method url ≡ o
          → (send_raw makes http reporter user_agent method url body headers duration o m).0
            ≡ ok (resp, raw)
          → IsAnswered
              (make_request makes http reporter user_agent method url body headers)
              resp
              raw
      unfolding send_raw make_request
      send_raw-ok (some x) m resp raw p h = absurd (ground (arith, h))
      send_raw-ok none m resp raw p h =
          let request = make_request makes http reporter user_agent method url body headers in
          let (sent, read) = after_send-ok (http.send request) m resp raw h in
          record { accepted = p; sent = sent; read = read }

      raw_from-ok :
          (o : Option Metrics) (n : Option Metrics) (resp : R) (raw : Bytes)
          → raw_from makes http reporter user_agent method url body headers duration o
            ≡ some (ok (resp, raw), n)
          → IsAnswered
              (make_request makes http reporter user_agent method url body headers)
              resp
              raw
      raw_from-ok none n resp raw h = absurd (ground (arith, h))
      raw_from-ok (some m) n resp raw h =
          send_raw-ok (http.refuses method url) m resp raw refl
            (ap (λ x. x.0) (some-injective _ _ h))

    module _ {A B : Type 0} (marshal : A → Result Bytes) (unmarshal : Bytes → Result B) where
      decode_response-ok :
          (o : Result (R × Bytes)) (b : B)
          → decode_response makes http reporter user_agent marshal unmarshal o ≡ ok b
          → (resp : R) × (raw : Bytes) × (o ≡ ok (resp, raw)) × (unmarshal raw ≡ ok b)
      decode_response-ok (err x) b h = absurd (ground (arith, h))
      decode_response-ok (ok (resp, raw)) b h = (resp, raw, refl, h)

      decoded_reply-ok :
          (o : Option (Result (R × Bytes) × Option Metrics)) (b : B) (n : Option Metrics)
          → decoded_reply makes http reporter user_agent marshal unmarshal o ≡ some (ok b, n)
          → (resp : R) × (raw : Bytes) × (o ≡ some (ok (resp, raw), n)) × (unmarshal raw ≡ ok b)
      decoded_reply-ok none b n h = absurd (ground (arith, h))
      decoded_reply-ok (some (reply, m)) b n h =
          let both = some-injective _ _ h in
          let (resp, raw, came, decodes) = decode_response-ok reply b (ap (λ x. x.0) both) in
          (resp, raw, ap some (λ i. (came i, (both i).1)), decodes)

      request_encoded-ok :
          (headers : Option (Dict Text)) (o : Result Bytes) (m : Metrics) (b : B)
          (n : Option Metrics)
          → request_encoded makes http reporter user_agent marshal unmarshal method url headers
              duration o m
            ≡ some (ok b, n)
          → (body : Bytes) × (resp : R) × (raw : Bytes) × (o ≡ ok body)
            × IsAnswered
                (make_request makes http reporter user_agent method url body
                  (with_content_type makes http reporter user_agent marshal unmarshal headers))
                resp
                raw
            × (unmarshal raw ≡ ok b)
      unfolding request_encoded request_http_raw
      request_encoded-ok headers (err x) m b n h = absurd (ground (arith, h))
      request_encoded-ok headers (ok body) m b n h =
          let sent_headers =
            with_content_type makes http reporter user_agent marshal unmarshal headers in
          let tracked = track_event makes reporter (codes "http.request") m in
          let (resp, raw, came, decodes) =
            decoded_reply-ok
              (raw_from makes http reporter user_agent method url body sent_headers duration
                tracked)
              b n h in
          (body, resp, raw, refl, raw_from-ok body sent_headers tracked n resp raw came, decodes)

      -- A RequestHTTP that succeeds, where no two entries of the caller's map name the same header and at
      -- most one, spelled so, names Content-Type, returns the decoded body of the answer to one request. The
      -- request has the method, the URL and the encoded input; its headers are Content-Type, that of JSON
      -- whatever the caller's map said, each other entry of that map, and the user agent, unless the map
      -- names it.
      pub request_http-IsAnswered :
          (input : A) (headers : Option (Dict Text)) (m : Metrics) (b : B) (n : Option Metrics)
          → IsMap (given headers)
          → IsPlain http (given headers)
          → request_http makes http reporter user_agent marshal unmarshal method url input headers
              duration m
            ≡ some (ok b, n)
          → (request : Request) × (resp : R) × (raw : Bytes) × IsMade makes http reporter user_agent
              method url
              (given headers)
              request
            × (marshal input ≡ ok request.body)
            × IsAnswered request resp raw
            × (unmarshal raw ≡ ok b)
      unfolding request_http with_content_type make_request
      request_http-IsAnswered input none m b n is_map plain h =
          let (body, resp, raw, encodes, answered, decodes) =
            request_encoded-ok none (marshal input) m b n h in
          (
            _,
            resp,
            raw,
            make_request-IsMade makes http reporter user_agent method url body [] is_map plain,
            encodes,
            answered,
            decodes,
          )
      request_http-IsAnswered input (some headers) m b n is_map plain h =
          let (body, resp, raw, encodes, answered, decodes) =
            request_encoded-ok (some headers) (marshal input) m b n h in
          (
            _,
            resp,
            raw,
            make_request-IsMade makes http reporter user_agent method url body headers is_map plain,
            encodes,
            answered,
            decodes,
          )
