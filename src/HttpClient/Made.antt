-- ===== src/HttpClient/Made.antt =====
-- base/microservice/internal/httpclient/http_client.go: the request that is made of the caller's headers.
use caaspay_core.Prelude.{
  ◌≡◌, ◌≢◌, refl, sym, ap, ◌∙◌, Bool, Option, none, some, Text, Bytes, codes, [], inl, inr,
}
use caaspay_core.Prelude.Dict.{Dict, get, get-put_self, empty, put}
use caaspay_core.Metrics.{Kind}
use caaspay_core.HttpClient.{ComplianceReporter, Request, Http, make_request}
use caaspay_core.HttpClient.Headers.{
  Has, IsMap, Has-put, Has-put_self, Has-put_other, set_headers-others, set_headers-found,
}

abbrev pub content_type : Text
content_type = codes "Content-Type"

abbrev pub json_type : Text
json_type = codes "application/json"

abbrev pub agent_name : Text
agent_name = codes "User-Agent"

-- The entries of a map that may be nil.
abbrev pub given : Option (Dict Text) → Dict Text
given none = []
given (some headers) = headers

-- Entries that name the same header are the same, and an entry that names Content-Type is spelled so.
pub record IsPlain {R : Type 0} (http : Http R) (headers : Dict Text) : Type 0 where
  pub apart :
      (j k w v : Text)
      → Has j w headers
      → Has k v headers
      → http.canonical j ≡ http.canonical k
      → (j ≡ k) × (w ≡ v)
  pub spelled :
      (j w : Text)
      → Has j w headers
      → http.canonical j ≡ http.canonical content_type
      → j ≡ content_type

module _ {R : Type 0} (makes : Kind → Text → Bool) (http : Http R) (reporter : ComplianceReporter)
    (user_agent : Text) (method url : Text) where
  -- The request as the caller's headers ask for it.
  pub record IsMade (headers : Dict Text) (request : Request) : Type 0 where
    pub to_method : request.method ≡ method
    pub to_url : request.url ≡ url
    pub is_json : get (http.canonical content_type) request.headers ≡ some json_type
    pub carries :
        (k v : Text)
        → Has k v headers
        → k ≢ content_type
        → get (http.canonical k) request.headers ≡ some v
    pub agent :
        http.canonical content_type ≢ agent_name
        → ((j w : Text) → Has j w headers → http.canonical j ≢ agent_name)
        → get agent_name request.headers ≡ some user_agent

  module _ (body : Bytes) (headers : Dict Text) (is_map : IsMap headers)
      (plain : IsPlain http headers) where
    abbrev sent : Dict Text
    sent = put content_type json_type headers

    abbrev agent_set : Dict Text
    agent_set = put agent_name user_agent empty

    sent-json :
        (j w : Text) → Has j w sent → http.canonical j ≡ http.canonical content_type → w ≡ json_type
    sent-json j w has names = elim (Has-put content_type json_type j w headers is_map has) [
      | inl (_, value) ↦ value
      | inr (other, old) ↦ absurd (other (plain.spelled j w old names))
    ]

    sent-same :
        (k v : Text)
        → Has k v headers
        → k ≢ content_type
        → (j w : Text) → Has j w sent
        → http.canonical j ≡ http.canonical k
        → w ≡ v
    sent-same k v here other j w has names =
        elim (Has-put content_type json_type j w headers is_map has) [
          | inl (is_type, _) ↦
              absurd (other (plain.spelled k v here (sym names ∙ ap http.canonical is_type)))
          | inr (_, old) ↦ (plain.apart j k w v old here names).1
        ]

    sent-agent :
        http.canonical content_type ≢ agent_name
        → ((j w : Text) → Has j w headers → http.canonical j ≢ agent_name)
        → (j w : Text) → Has j w sent
        → http.canonical j ≢ agent_name
    sent-agent other unnamed j w has q =
        elim (Has-put content_type json_type j w headers is_map has) [
          | inl (is_type, _) ↦ other (sym (ap http.canonical is_type) ∙ q)
          | inr (_, old) ↦ unnamed j w old q
        ]

    pub make_request-IsMade :
        IsMade headers (make_request makes http reporter user_agent method url body sent)
    unfolding make_request
    make_request-IsMade = record {
      to_method = refl;
      to_url = refl;
      is_json =
          set_headers-found makes http reporter user_agent (http.canonical content_type) json_type
            sent agent_set sent-json
            (inl (content_type, refl, Has-put_self content_type json_type headers));
      carries = λ k v here other.
          set_headers-found makes http reporter user_agent (http.canonical k) v sent agent_set
            (sent-same k v here other)
            (inl (k, refl, Has-put_other content_type json_type k v headers other here));
      agent = λ other unnamed.
          set_headers-others makes http reporter user_agent agent_name sent agent_set
            (sent-agent other unnamed)
          ∙ get-put_self agent_name user_agent empty;
    }
