-- ===== src/Service/Rpc.antt =====
-- base/microservice/internal/service/service.go: the handler that registerRPCMethod makes. The
-- method behind it is any functions between the types of its argument and its result.
pub mod Invocations
pub mod Replies
use caaspay_core.Prelude.{
  ℕ, ◌-◌, Bool, true, false, Option, none, some, Text, Bytes, codes, List, [], ◌∷◌, Error, wrap,
  Result, ok, err, is_empty, if◌then◌else◌,
}
use caaspay_core.Message.{TransportMessage, new_transport_message}
use caaspay_core.Transport.{
  RedisTransport, Env, Call, History, clock, increment, observe, track, invoke, fresh_id,
}
use caaspay_core.Transport.Act.{Act, pure, ask, tell, ◌>>=◌, ◌>>◌}
use caaspay_core.Transport.Sending.{emit}
use caaspay_core.Service.{stage_tags}

-- A method of the service: the JSON decoder of its argument, the validator if there is one, the
-- call, and the JSON encoder of its result. `fresh` is uuid.NewString.
pub record RpcMethod (A B : Type 0) : Type 0 where
  pub unmarshal_args : Bytes → Result A
  pub validator : Option (A → Option Error)
  pub call : History → A → B × Option Error
  pub marshal_result : B → Result Bytes
  pub fresh : History → Text

-- The durations that the handler measures, in nanoseconds.
pub record Timing : Type 0 where
  pub start : ℕ
  pub validate : ℕ
  pub execute : ℕ
  pub encode : ℕ
  pub reply_create : ℕ
  pub reply_publish : ℕ

abbrev pub stream_tags : Text → List Text
stream_tags stream = codes "stream" ∷ stream ∷ []

-- The error with which the validator, if there is one, refuses an argument.
unfoldable pub refused_by : {A : Type 0} → Option (A → Option Error) → A → Option Error
refused_by none a = none
refused_by (some v) a = v a

-- An error that is counted under its stage and returned.
unfoldable pub request_failed : (stream stage : Text) → Error → Act (Option Error)
request_failed stream stage x = do
  tell (increment (codes "request_errors") (stage_tags stream stage))
  pure (some x)

module _ {A B : Type 0} (e : Env) (f : RpcMethod A B) (service stream : Text) where
  abbrev pub time_now : Act ℕ
  time_now = ask e.now clock

  abbrev pub since : ℕ → Act ℕ
  since start = do now ← time_now; pure (now - start)

  -- The error of `Emit` is counted and not returned.
  unfoldable pub count_publish : Option Error → Act (Unit {0})
  count_publish none = pure tt
  count_publish (some _) =
      tell (increment (codes "request_errors") (stage_tags stream (codes "publish")))

  unfoldable pub make_reply : TransportMessage → Bytes → Act TransportMessage
  make_reply msg raw = do
    message_id ← ask f.fresh fresh_id
    transport_id ← ask f.fresh fresh_id
    now ← time_now
    let blank = new_transport_message message_id transport_id now service stream [] none
    pure (record blank {
      message_id = msg.message_id;
      trace = msg.trace;
      stash = msg.stash;
      response = raw;
    })

  unfoldable pub publish_reply : (reply_to : Text) → TransportMessage → Act (Unit {0})
  unfolding count_publish
  publish_reply reply_to reply = do failed ← emit e reply_to reply; count_publish failed

  unfoldable pub send_reply : TransportMessage → Bytes → Timing → Act Timing
  unfolding make_reply publish_reply
  send_reply msg raw t = do
    start ← time_now
    reply ← make_reply msg raw
    create ← since start
    start₂ ← time_now
    publish_reply msg.reply_to reply
    publish ← since start₂
    pure (record t { reply_create = create; reply_publish = publish })

  unfoldable pub reply_unless : Bool → TransportMessage → Bytes → Timing → Act Timing
  unfolding send_reply
  reply_unless true msg raw t = pure t
  reply_unless false msg raw t = send_reply msg raw t

  unfoldable pub reply_if_asked : TransportMessage → Bytes → Timing → Act Timing
  unfolding reply_unless
  reply_if_asked msg raw t = reply_unless (is_empty msg.reply_to) msg raw t

  unfoldable pub finish : Timing → Act (Option Error)
  finish t = do
    total ← since t.start
    tell (increment (codes "service_requests") (stream_tags stream))
    tell (observe (codes "framework.rpc.total") total (stream_tags stream))
    tell (observe (codes "framework.rpc.validate") t.validate (stream_tags stream))
    tell (observe (codes "framework.rpc.execute") t.execute (stream_tags stream))
    tell (observe (codes "framework.rpc.encode") t.encode (stream_tags stream))
    tell (observe (codes "framework.rpc.reply_create") t.reply_create (stream_tags stream))
    tell (observe (codes "framework.rpc.reply_publish") t.reply_publish (stream_tags stream))
    pure none

  unfoldable pub after_encode :
      TransportMessage → (start : ℕ) → Timing → Result Bytes → Act (Option Error)
  unfolding reply_if_asked finish request_failed
  after_encode msg start t (err x) =
      request_failed stream (codes "response_marshal") (wrap (codes "failed to encode response") x)
  after_encode msg start t (ok raw) = do
    encode ← since start
    t' ← reply_if_asked msg raw (record t { encode = encode })
    finish t'

  unfoldable pub after_call : TransportMessage → Timing → B × Option Error → Act (Option Error)
  unfolding after_encode request_failed
  after_call msg t (_, some x) = request_failed stream (codes "handler") x
  after_call msg t (value, none) = do
    start ← time_now
    after_encode msg start t (f.marshal_result value)

  unfoldable pub after_validate :
      TransportMessage → (began start : ℕ) → A → Option Error → Act (Option Error)
  unfolding after_call request_failed
  after_validate msg began start arg (some x) = request_failed stream (codes "validation") x
  after_validate msg began start arg none = do
    validate ← since start
    start₂ ← time_now
    result ← ask (λ h. f.call h arg) (invoke stream msg.args)
    execute ← since start₂
    let t : Timing = record {
      start = began;
      validate = validate;
      execute = execute;
      encode = 0;
      reply_create = 0;
      reply_publish = 0;
    }
    after_call msg t result

  unfoldable pub after_decode : TransportMessage → (began start : ℕ) → Result A → Act (Option Error)
  unfolding after_validate request_failed
  after_decode msg began start (err x) = request_failed stream (codes "args_unmarshal") x
  after_decode msg began start (ok arg) =
      after_validate msg began start arg (refused_by f.validator arg)

  -- The handler: its error, and what it does to the transport. Its reply message is always nil.
  unfoldable pub rpc_handler : TransportMessage → Act (Option Error)
  unfolding after_decode
  rpc_handler msg = do
    began ← time_now
    tell (increment (codes "service_requests") (stream_tags stream))
    tell (track (codes "rpc_request"))
    start ← time_now
    after_decode msg began start (f.unmarshal_args msg.args)
