-- ===== src/Message.antt =====
-- base/microservice/pkg/common/transport/transport_message.go and
-- base/microservice/pkg/common/fwctx/contextkeys.go: the message that every stream carries.
-- encoding/json is the parameter `Json`; identifiers (uuid) and the clock are arguments.
pub mod Laws
mod Tests
use caaspay_core.Prelude.{
  ℕ, ◌+◌, ◌*◌, ◌^◌, Bool, true, false, ◌||◌, not, Option, none, some, List, [], ◌∷◌, ◌++◌, Text,
  Bytes, codes, is_empty, if◌then◌else◌, Error, errorf, wrap, Result, ok, err, or_wrap, ◌>>=◌, ℤ,
  pos, is_positive, int64,
}
use caaspay_core.Prelude.Dict.{Dict, empty, get, put}

pub record AuthContext : Type 0 where
  pub user_id : Text
  pub username : Text
  pub role : Text
  pub token : Text

pub record RequestContext : Type 0 where
  pub ip : Text
  pub locale : Text
  pub user_agent : Text
  pub source : Text

pub record MessageError : Type 0 where
  pub code : Text
  pub message : Text
  pub retry : Bool

-- A value of `map[string]any`: a string, a map of strings, or any other value as its encoding.
pub data Value : Type 0 where
  text : Text → Value
  texts : Dict Text → Value
  encoded : Bytes → Value

pub record TransportMessage : Type 0 where
  pub id : Text
  pub message_id : Text
  pub transport_id : Text
  pub service : Text
  pub method : Text
  pub who : Text
  pub reply_to : Text
  pub deadline : ℤ  -- int64, nanoseconds
  pub auth : Option AuthContext
  pub context : Option RequestContext
  pub args : Bytes
  pub response : Bytes
  pub stash : Dict Value
  pub trace : Dict Text
  pub error : Option MessageError

-- encoding/json at the types that the program encodes and decodes.
pub record Json : Type 0 where
  pub marshal : TransportMessage → Result Bytes
  pub unmarshal : Bytes → Result TransportMessage
  pub unmarshal_map : Bytes → Result (Dict Value)

abbrev pub second : ℕ
second = 10 ^ 9

default_timeout : Option ℕ → ℕ
default_timeout none = 30 * second
default_timeout (some t) = t

-- `fresh` and `fresh'` are the results of the two calls of uuid.NewString, `now` is the clock. The
-- timeout is in nanoseconds and not negative.
unfoldable pub new_transport_message :
    (fresh fresh' : Text) (now : ℕ) (service method : Text) (raw_args : Bytes)
    → Option ℕ
    → TransportMessage
unfolding default_timeout
new_transport_message fresh fresh' now service method raw_args timeout = record {
  id = [];
  message_id = fresh;
  transport_id = fresh';
  service = service;
  method = method;
  who = [];
  reply_to = [];
  deadline = int64 (now + default_timeout timeout);
  auth = none;
  context = none;
  args = raw_args;
  response = [];
  stash = empty;
  trace = empty;
  error = none;
}

pub new_http_message :
    (fresh fresh' : Text) (now : ℕ) (method url : Text) (body : Bytes) (headers : Dict Text)
    → ℕ
    → TransportMessage
new_http_message fresh fresh' now method url body headers timeout =
    let msg =
      new_transport_message fresh fresh' now (codes "external_http") (method ++ (codes ":" ++ url))
        body (some timeout) in
    record msg {
      stash =
          (codes "http_url", text url)
          ∷ (codes "http_method", text method)
          ∷ (codes "http_headers", texts headers)
          ∷ [];
    }

-- `Validate`; the `nil` error is `none`.
unfoldable pub validate : TransportMessage → Option Error
validate m =
    if is_empty m.message_id || is_empty m.transport_id
    then some (errorf (codes "missing message_id or transport_id"))
    else if is_empty m.service || is_empty m.method
    then some (errorf (codes "missing service or method"))
    else if is_positive m.deadline
    then none
    else some (errorf (codes "invalid deadline"))

check : TransportMessage → Option Error → Result TransportMessage
check m none = ok m
check m (some e) = err e

module _ (json : Json) where
  unfoldable pub to_json : TransportMessage → Result Bytes
  to_json m = json.marshal m

  pub to_map : TransportMessage → Result (Dict Value)
  to_map m = do
    bytes ← or_wrap (codes "failed to marshal message to map") (json.marshal m)
    or_wrap (codes "failed to unmarshal message to map") (json.unmarshal_map bytes)

  unfoldable pub decode_transport_message : Bytes → Text → Result TransportMessage
  unfolding check validate
  decode_transport_message bytes transport_id = do
    msg ← json.unmarshal bytes
    let m = record msg { transport_id = transport_id }
    check m (validate m)

-- The context keys of contextkeys.go.
abbrev pub ctx_key_message_id : Text
ctx_key_message_id = codes "msg_transport_id"

abbrev pub ctx_key_stream : Text
ctx_key_stream = codes "stream"

abbrev pub ctx_key_rstream : Text
ctx_key_rstream = codes "reply_stream"

abbrev pub ctx_key_trace_id : Text
ctx_key_trace_id = codes "trace_id"

abbrev pub ctx_key_span_id : Text
ctx_key_span_id = codes "span_id"

abbrev pub ctx_key_user_id : Text
ctx_key_user_id = codes "user_id"

abbrev pub ctx_key_locale : Text
ctx_key_locale = codes "locale"

abbrev pub ctx_key_ip : Text
ctx_key_ip = codes "ip"

abbrev pub ctx_key_source : Text
ctx_key_source = codes "source"

-- context.WithValue; a value that is set again hides the older one.
abbrev pub Context : Type 0
Context = Dict Text

with_nonempty : Text → Text → Context → Context
with_nonempty k v ctx = if is_empty v then ctx else put k v ctx

attach_auth : Option AuthContext → Context → Context
attach_auth none ctx = ctx
attach_auth (some a) ctx = with_nonempty ctx_key_user_id a.user_id ctx

attach_request : Option RequestContext → Context → Context
attach_request none ctx = ctx
attach_request (some c) ctx =
    with_nonempty ctx_key_source c.source
      (with_nonempty ctx_key_locale c.locale (with_nonempty ctx_key_ip c.ip ctx))

attach_found : Text → Option Text → Context → Context
attach_found k none ctx = ctx
attach_found k (some v) ctx = put k v ctx

-- `AttachToContext`
unfoldable pub attach_to_context : TransportMessage → Context → Context
unfolding attach_auth attach_request attach_found with_nonempty
attach_to_context m ctx =
    let named =
      put ctx_key_rstream m.reply_to
        (put ctx_key_stream m.method (put ctx_key_message_id m.transport_id ctx)) in
    let known = attach_request m.context (attach_auth m.auth named) in
    attach_found ctx_key_span_id (get (codes "span_id") m.trace)
      (attach_found ctx_key_trace_id (get (codes "trace_id") m.trace) known)
