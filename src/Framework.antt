-- ===== src/Framework.antt =====
-- base/microservice/internal/framework/framework_context.go: the transport that the framework makes
-- from its configuration, the names of streams, the health of the whole, and RequestRPC. RequestRPC
-- blocks inside `Request`, so it is two operations, as `Request` is.
pub mod Streams
pub mod Options
pub mod Calls
pub mod Completion
pub mod RoundTrip
pub mod Startup
pub mod Bootstrap
pub mod Samples
mod Tests
use caaspay_core.Prelude.{
  ℕ, ◌-◌, Bool, true, false, ◌&&◌, Option, none, some, Text, Bytes, codes, List, [], ◌∷◌, ◌++◌,
  Error, errorf, wrap, Result, ok, err, is_empty, if◌then◌else◌,
}
use caaspay_core.Naming.{StreamType, stream_type_rpc, build_stream_name}
use caaspay_core.Message.{TransportMessage, new_transport_message}
use caaspay_core.Transport.{
  RedisTransport, Env, History, Call, clock, fresh_id, observe, check_service,
}
use caaspay_core.Transport.Act.{Act, pure, ask, tell, gets, ◌>>=◌, ◌>>◌}
use caaspay_core.Transport.Startup.{RedisTransportConfig}
use caaspay_core.Transport.Rpc.{receive, time_out}
use caaspay_core.Transport.Rpc.{request as send_request}
use caaspay_core.Transport.Trim.{is_healthy as transport_healthy}
use caaspay_core.Config.{Config}
use caaspay_core.Service.Rpc.{stream_tags}

-- The settings of the transport; the fields that the source leaves out are zero values.
unfoldable pub redis_config : {D : Type 0} → Config D → RedisTransportConfig
redis_config c =
    let t = c.framework.transport in
    record {
      redis_addr = t.redis_addr;
      service_instance_id = c.framework.instance_id;
      use_cluster = false;
      tls_required = false;
      use_compression = t.use_compression;
      use_encryption = t.use_encryption;
      service_reply_stream = c.framework.service_name ++ codes "_reply";
      response_on_service_stream = t.response_on_service_stream;
      response_stream_sub_once = t.response_stream_sub_once;
      encryption_key = t.encryption_key;
      max_retries = t.max_retries;
      retry_delay = t.retry_delay;
      dlq_stream = [];
      move_expired_to_dlq = t.move_expired_to_dlq;
      pool_size = 0;
      min_idle_conns = 0;
      dial_timeout = 0;
      read_timeout = t.read_timeout;
      write_timeout = t.write_timeout;
      stream_read_count = t.stream_read_count;
      stream_trim_max_len = t.stream_trim_max_len;
      stream_trim_approx = t.stream_trim_approx;
      periodic_trim_freq = t.periodic_trim_freq;
    }

-- `BuildStreamName` of the context.
unfoldable pub context_stream_name : StreamType → (service method : Text) → Text
context_stream_name kind service method =
    build_stream_name (record { kind = kind; service = service; method = method; instance_id = [] })

-- The first of the optional names, if it is not empty, stands for the service.
unfoldable pub chosen_service : (own : Text) → List Text → Text
chosen_service own [] = own
chosen_service own (name ∷ _) = if is_empty name then own else name

unfoldable pub build_rpc_stream_name : (own method : Text) → List Text → Text
unfolding context_stream_name chosen_service
build_rpc_stream_name own method service_name =
    context_stream_name stream_type_rpc (chosen_service own service_name) method

module _ (e : Env) where
  -- The service's own HealthCheck, where there is a service.
  service_healthy : Option (History → Option Error) → Act Bool
  service_healthy none = pure true
  service_healthy (some check) = do
    failed ← ask check check_service
    pure (elim failed [ none ↦ true | some _ ↦ false ])

  after_transport :
      Option (History → Option Error) → (supervisor : Bool) → Option Bool → Act (Option Bool)
  after_transport service supervisor none = pure none
  after_transport service supervisor (some transport) = do
    own ← service_healthy service
    pure (some (transport && (own && supervisor)))

  -- All three are asked, whatever the others answer; `none` is the panic of the transport's check.
  pub is_healthy : Option (History → Option Error) → (supervisor : Bool) → Act (Option Bool)
  is_healthy service supervisor = do
    transport ← transport_healthy e
    after_transport service supervisor transport

-- The input and output types of a call: the validator if there is one, and encoding/json. `fresh` is
-- uuid.NewString.
pub record RpcCall (A B : Type 0) : Type 0 where
  pub validator : Option (A → Option Error)
  pub marshal_input : A → Result Bytes
  pub unmarshal_output : Bytes → Result B
  pub fresh : History → Text

-- A request that waits, with what its end needs.
pub record Waiting : Type 0 where
  pub channel : ℕ
  pub message_id : Text
  pub start : ℕ
  pub encode : ℕ
  pub sent_at : ℕ

module _ {A B : Type 0} (e : Env) (f : RpcCall A B) (fuel : ℕ) (own stream caller : Text)
    (timeout : ℕ) where
  abbrev time_now : Act ℕ
  time_now = ask e.now clock

  unfoldable pub requested : Waiting → Result ℕ → Act (Result Waiting)
  requested w (err x) = do time_now; pure (err (wrap (codes "transport request failed") x))
  requested w (ok ch) = pure (ok (record w { channel = ch }))

  unfoldable pub send_encoded : (start estart : ℕ) → Result Bytes → Act (Result Waiting)
  unfolding requested
  send_encoded start estart (err x) = pure (err (wrap (codes "failed to marshal input") x))
  send_encoded start estart (ok raw) = do
    encoded_at ← time_now
    message_id ← ask f.fresh fresh_id
    transport_id ← ask f.fresh fresh_id
    now ← time_now
    let msg = new_transport_message message_id transport_id now own stream raw (some timeout)
    tstart ← time_now
    sent ← send_request e fuel stream caller msg
    let w : Waiting = record {
      channel = 0;
      message_id = message_id;
      start = start;
      encode = encoded_at - estart;
      sent_at = tstart;
    }
    requested w sent

  unfoldable pub checked_input : Option Error → Act (Option Error)
  checked_input (some x) = pure (some x)
  checked_input none = do time_now; pure none

  -- The clock is read around the validator, where there is one.
  unfoldable pub check_input : Option (A → Option Error) → A → Act (Option Error)
  unfolding checked_input
  check_input none input = pure none
  check_input (some v) input = do time_now; checked_input (v input)

  unfoldable pub send_valid : ℕ → A → Option Error → Act (Result Waiting)
  unfolding send_encoded
  send_valid start input (some x) = pure (err (wrap (codes "input validation failed") x))
  send_valid start input none = do
    estart ← time_now
    send_encoded start estart (f.marshal_input input)

  unfoldable pub begin_request : A → Act (Result Waiting)
  unfolding send_valid check_input
  begin_request input = do
    start ← time_now
    refused ← check_input f.validator input
    send_valid start input refused

  unfoldable pub decoded : Waiting → ℕ → Result B → Act (Result B)
  decoded w transport (err x) = pure (err (wrap (codes "failed to decode response") x))
  decoded w transport (ok output) = do
    time_now
    now ← time_now
    tell (observe (codes "framework.rpc.total") (now - w.start) (stream_tags stream))
    tell (observe (codes "framework.rpc.encode") w.encode (stream_tags stream))
    tell (observe (codes "framework.rpc.transport") transport (stream_tags stream))
    pure (ok output)

  -- The end of a call whose channel holds a reply.
  unfoldable pub finish_with : Waiting → TransportMessage → Act (Result B)
  unfolding decoded
  finish_with w reply = do
    now ← time_now
    time_now
    decoded w (now - w.sent_at) (f.unmarshal_output reply.response)

  unfoldable pub end_with :
      Waiting → Option TransportMessage → RedisTransport → Option (Result B × RedisTransport)
  unfolding finish_with
  end_with w none r = none
  end_with w (some reply) r = some (finish_with w reply r)

  -- The end of a call, where it can end: the select takes the timer, or a reply if the channel holds
  -- one.
  unfoldable pub end_request :
      (timer : Bool) → Waiting → RedisTransport → Option (Result B × RedisTransport)
  unfolding end_with
  end_request true w r =
      let (x, r₂) = time_out e w.message_id r in
      some (err (wrap (codes "transport request failed") x), (time_now r₂).1)
  end_request false w r = end_with w (receive e w.channel r) r
