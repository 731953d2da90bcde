-- ===== src/Message/Laws.antt =====
-- What a decoded message satisfies, and what a message leaves in a context.
use caaspay_core.Prelude.{
  refl, subst, ℕ, ◌+◌, ◌^◌, ◌<◌, ◌≡◌, ◌≢◌, true, false, Option, none, some, List, [], ◌∷◌, Text,
  Bytes, text_eq, text_eq_iff, text_eq-ne, codes, is_empty, arith, ok, is_positive, int64,
  if◌then◌else◌, All,
}
use caaspay_core.Prelude.Dict.{get, get-put}
use caaspay_core.Message.{
  TransportMessage, AuthContext, RequestContext, Json, validate, check, to_json,
  decode_transport_message, new_transport_message, Context, attach_to_context, attach_found,
  attach_auth, attach_request, with_nonempty, ctx_key_message_id, ctx_key_stream, ctx_key_rstream,
  ctx_key_user_id, ctx_key_ip, ctx_key_locale, ctx_key_source, ctx_key_trace_id, ctx_key_span_id,
}

-- A decoded message carries the given transport id in place of its own and passes `Validate`: it
-- has a message id, a transport id, a service, a method and a positive deadline.
decode_sound :
    (json : Json) (bytes : Bytes) (tid : Text) (m : TransportMessage)
    → decode_transport_message json bytes tid ≡ ok m
    → (m.transport_id ≡ tid)
      × (is_empty tid ≡ false)
      × (is_empty m.message_id ≡ false)
      × (is_empty m.service ≡ false)
      × (is_empty m.method ≡ false)
      × (is_positive m.deadline ≡ true)
unfolding decode_transport_message
decode_sound json bytes tid m h = ground arith

-- A message that is encoded and decoded under another transport id comes back with that id, if it
-- passes `Validate`.
pub decode-to_json :
    (json : Json) (m : TransportMessage) (bytes : Bytes) (tid : Text)
    → to_json json m ≡ ok bytes
    → ((b : Bytes) → json.marshal m ≡ ok b → json.unmarshal b ≡ ok m)
    → validate (record m { transport_id = tid }) ≡ none
    → decode_transport_message json bytes tid ≡ ok (record m { transport_id = tid })
unfolding to_json decode_transport_message check
decode-to_json json m bytes tid e law v = rw (law bytes e, v)

-- A message and the id of an entry that a receiver can use.
pub record IsUsable (m : TransportMessage) (tid : Text) : Type 0 where
  pub entry_id : tid ≢ []
  pub message_id : m.message_id ≢ []
  pub service : m.service ≢ []
  pub method : m.method ≢ []
  pub deadline : is_positive m.deadline ≡ true

filled : (t : Text) → t ≢ [] → is_empty t ≡ false
filled [] h = absurd (h refl)
filled (c ∷ t) h = refl

not_nil : (t : Text) → is_empty t ≡ false → t ≢ []
not_nil t h q = let full : is_empty [] ≡ false = subst (λ u. is_empty u ≡ false) q h in absurd (cc)

usable-valid :
    (m : TransportMessage) (tid : Text)
    → IsUsable m tid
    → validate (record m { transport_id = tid }) ≡ none
unfolding validate
usable-valid m tid u =
    rw
      (
        filled tid u.entry_id,
        filled m.message_id u.message_id,
        filled m.service u.service,
        filled m.method u.method,
        u.deadline,
      )
      refl

-- Let encoding/json read back what it writes for a message. Of the JSON of the message, the decoder
-- under the id of an entry gives either the message with that id in place of its own, and nothing else
-- changed, or an error. It gives the message exactly if the id, the message id, the service and the
-- method are not empty and the deadline is positive.
pub decode-accepts :
    (json : Json) (m : TransportMessage) (bytes : Bytes) (tid : Text)
    → to_json json m ≡ ok bytes
    → ((b : Bytes) → json.marshal m ≡ ok b → json.unmarshal b ≡ ok m)
    → (IsUsable m tid
        → decode_transport_message json bytes tid ≡ ok (record m { transport_id = tid }))
      × ((o : TransportMessage)
          → decode_transport_message json bytes tid ≡ ok o
          → (o ≡ record m { transport_id = tid }) × IsUsable m tid)
unfolding to_json decode_transport_message check validate
decode-accepts json m bytes tid e law = (
  λ u. decode-to_json json m bytes tid e law (usable-valid m tid u),
  λ o h.
      let read = law bytes e in
      let same : o ≡ record m { transport_id = tid } = ground (arith, h, read) in
      let (_, t, i, s, n, d) = decode_sound json bytes tid o h in
      (
        same,
        record {
          entry_id = not_nil tid t;
          message_id = not_nil m.message_id (subst (λ x. is_empty x.message_id ≡ false) same i);
          service = not_nil m.service (subst (λ x. is_empty x.service ≡ false) same s);
          method = not_nil m.method (subst (λ x. is_empty x.method ≡ false) same n);
          deadline = subst (λ x. is_positive x.deadline ≡ true) same d;
        },
      ),
)

-- A new message for a named service and method passes `Validate`, if its deadline is after the
-- epoch and fits an int64.
new_transport_message-valid :
    (fresh fresh' service method : Text) (now : ℕ) (args : Bytes) (timeout : ℕ)
    → is_empty fresh ≡ false
    → is_empty fresh' ≡ false
    → is_empty service ≡ false
    → is_empty method ≡ false
    → 0 < now + timeout
    → now + timeout < 2 ^ 63
    → validate (new_transport_message fresh fresh' now service method args (some timeout)) ≡ none
unfolding new_transport_message validate int64
new_transport_message-valid fresh fresh' service method now args timeout a b c d lo hi =
    ground arith

-- The value that a nonempty field sets, else the one that was there.
abbrev pub overridden : Text → Option Text → Option Text
overridden v old = if is_empty v then old else some v

abbrev pub or_else : Option Text → Option Text → Option Text
or_else none old = old
or_else (some v) old = some v

abbrev pub user_of : Option AuthContext → Text
user_of none = []
user_of (some a) = a.user_id

abbrev pub field_of : (RequestContext → Text) → Option RequestContext → Text
field_of f none = []
field_of f (some c) = f c

module _ (j : Text) where
  get-with_nonempty :
      (k v : Text) (c : Context)
      → get j (with_nonempty k v c) ≡ (if text_eq k j then overridden v (get j c) else get j c)
  unfolding with_nonempty
  get-with_nonempty k v c = ground (arith, get-put k j v c)

  get-attach_found :
      (k : Text) (o : Option Text) (c : Context)
      → get j (attach_found k o c) ≡ (if text_eq k j then or_else o (get j c) else get j c)
  unfolding attach_found
  get-attach_found k none c = ground arith
  get-attach_found k (some v) c = get-put k j v c

  get-attach_auth :
      (a : Option AuthContext) (c : Context)
      → get j (attach_auth a c)
        ≡ (if text_eq ctx_key_user_id j then overridden (user_of a) (get j c) else get j c)
  unfolding attach_auth
  get-attach_auth none c = ground arith
  get-attach_auth (some a) c = get-with_nonempty ctx_key_user_id a.user_id c

  get-attach_request :
      (o : Option RequestContext) (c : Context)
      → get j (attach_request o c) ≡ (
          if text_eq ctx_key_source j
          then overridden (field_of (λ r. r.source) o) (get j c)
          else if text_eq ctx_key_locale j
          then overridden (field_of (λ r. r.locale) o) (get j c)
          else if text_eq ctx_key_ip j
          then overridden (field_of (λ r. r.ip) o) (get j c)
          else get j c)
  unfolding attach_request
  get-attach_request none c = ground arith
  get-attach_request (some r) c = ground (
    arith,
    get-with_nonempty ctx_key_ip r.ip c,
    get-with_nonempty ctx_key_locale r.locale (with_nonempty ctx_key_ip r.ip c),
    get-with_nonempty ctx_key_source r.source
        (with_nonempty ctx_key_locale r.locale (with_nonempty ctx_key_ip r.ip c)),
    text_eq_iff ctx_key_source j,
    text_eq_iff ctx_key_locale j,
    text_eq_iff ctx_key_ip j,
  )

ruleset attach_rules = (get-put, get-attach_found, get-attach_auth, get-attach_request)

-- The keys that a message may set.
abbrev pub ctx_keys : List Text
ctx_keys =
    ctx_key_message_id ∷ ctx_key_stream ∷ ctx_key_rstream ∷ ctx_key_user_id ∷ ctx_key_ip
    ∷ ctx_key_locale ∷ ctx_key_source ∷ ctx_key_trace_id ∷ ctx_key_span_id ∷ []

-- What `c` holds after the message `m` has been attached to `ctx`: the names of the message, each
-- optional field or else the older value, and every other key as it was.
record IsAttached (m : TransportMessage) (ctx c : Context) : Type 0 where
  pub message_id : get ctx_key_message_id c ≡ some m.transport_id
  pub stream : get ctx_key_stream c ≡ some m.method
  pub reply_stream : get ctx_key_rstream c ≡ some m.reply_to
  pub user_id : get ctx_key_user_id c ≡ overridden (user_of m.auth) (get ctx_key_user_id ctx)
  pub ip : get ctx_key_ip c ≡ overridden (field_of (λ r. r.ip) m.context) (get ctx_key_ip ctx)
  pub locale :
      get ctx_key_locale c
      ≡ overridden (field_of (λ r. r.locale) m.context) (get ctx_key_locale ctx)
  pub source :
      get ctx_key_source c
      ≡ overridden (field_of (λ r. r.source) m.context) (get ctx_key_source ctx)
  pub trace_id :
      get ctx_key_trace_id c ≡ or_else (get (codes "trace_id") m.trace) (get ctx_key_trace_id ctx)
  pub span_id :
      get ctx_key_span_id c ≡ or_else (get (codes "span_id") m.trace) (get ctx_key_span_id ctx)
  pub others : (k : Text) → All (λ j. j ≢ k) ctx_keys → get k c ≡ get k ctx

get-attach_others :
    (m : TransportMessage) (ctx : Context) (k : Text)
    → All (λ j. j ≢ k) ctx_keys
    → get k (attach_to_context m ctx) ≡ get k ctx
unfolding attach_to_context
get-attach_others m ctx k (h₁, (h₂, (h₃, (h₄, (h₅, (h₆, (h₇, (h₈, (h₉, _))))))))) = simp (
  attach_rules,
  text_eq-ne _ _ h₁,
  text_eq-ne _ _ h₂,
  text_eq-ne _ _ h₃,
  text_eq-ne _ _ h₄,
  text_eq-ne _ _ h₅,
  text_eq-ne _ _ h₆,
  text_eq-ne _ _ h₇,
  text_eq-ne _ _ h₈,
  text_eq-ne _ _ h₉,
)

-- Attaching a message sets exactly the keys that the message has values for.
attach-IsAttached :
    (m : TransportMessage) (ctx : Context) → IsAttached m ctx (attach_to_context m ctx)
unfolding attach_to_context text_eq
attach-IsAttached m ctx = record {
  message_id = simp attach_rules;
  stream = simp attach_rules;
  reply_stream = simp attach_rules;
  user_id = simp attach_rules;
  ip = simp attach_rules;
  locale = simp attach_rules;
  source = simp attach_rules;
  trace_id = simp attach_rules;
  span_id = simp attach_rules;
  others = get-attach_others m ctx;
}
