-- ===== src/Service/Rpc/Invocations.antt =====
-- How often the handler of an RPC method calls the method, and what it returns.
use caaspay_core.Prelude.{
  ℕ, ◌+◌, ◌≡◌, refl, ◌∙◌, Bool, true, false, Option, none, some, Text, Bytes, ◌∷◌, arith, Error,
  wrap, codes, Result, ok, err, is_empty,
}
use caaspay_core.Message.{TransportMessage}
use caaspay_core.Transport.{RedisTransport, Env, History, clock, increment, track, invoke}
use caaspay_core.Transport.Act.{ask}
use caaspay_core.Transport.Calls.{count_calls, is_invoke}
use caaspay_core.Transport.Sending.{emit}
use caaspay_core.Transport.Sending.Quiet.{IsQuiet, emit-count}
use caaspay_core.Service.Rpc.{
  RpcMethod, Timing, refused_by, request_failed, count_publish, send_reply, make_reply,
  publish_reply, reply_unless, reply_if_asked, time_now, since, finish, after_encode, after_call,
  after_validate, after_decode, rpc_handler, stream_tags,
}

abbrev pub invocations : RedisTransport → ℕ
invocations r = count_calls is_invoke r.history

never_invokes : IsQuiet is_invoke
never_invokes = record {
  add = λ stream v. refl;
  waiting = λ d. refl;
  now = refl;
  sleeping = λ d. refl;
  random = refl;
  failing = λ tags. refl;
}

emit-invocations :
    (e : Env) (stream : Text) (msg : TransportMessage) (r : RedisTransport)
    → invocations (emit e stream msg r).1 ≡ invocations r
emit-invocations e = emit-count e is_invoke never_invokes

module _ {A B : Type 0} (e : Env) (f : RpcMethod A B) (service stream : Text) where
  -- Whether the arguments decode and the validator, if there is one, passes them.
  abbrev passes : Option Error → ℕ
  passes none = 1
  passes (some _) = 0

  abbrev pub accepted : Result A → ℕ
  accepted (err _) = 0
  accepted (ok a) = passes (refused_by f.validator a)

  abbrev encoding_error : Result Bytes → Option Error
  encoding_error (err x) = some (wrap (codes "failed to encode response") x)
  encoding_error (ok _) = none

  abbrev call_error : B × Option Error → Option Error
  call_error (value, some x) = some x
  call_error (value, none) = encoding_error (f.marshal_result value)

  abbrev check_error : History → A → Option Error → Option Error
  check_error h a (some x) = some x
  check_error h a none = call_error (f.call h a)

  -- The first of decoding, validation, the method (called in the history) and encoding that fails.
  abbrev pub first_error : History → Result A → Option Error
  first_error h (err x) = some x
  first_error h (ok a) = check_error h a (refused_by f.validator a)

  -- The history in which the method is called.
  abbrev pub called_at : TransportMessage → RedisTransport → History
  called_at msg r =
      invoke stream msg.args
      ∷ clock
      ∷ clock
      ∷ clock
      ∷ track (codes "rpc_request")
      ∷ increment (codes "service_requests") (stream_tags stream)
      ∷ clock
      ∷ r.history

  count_publish-invocations :
      (o : Option Error) (r : RedisTransport)
      → invocations (count_publish e f service stream o r).1 ≡ invocations r
  unfolding count_publish
  count_publish-invocations none r = refl
  count_publish-invocations (some x) r = refl

  publish_reply-invocations :
      (reply_to : Text) (reply : TransportMessage) (r : RedisTransport)
      → invocations (publish_reply e f service stream reply_to reply r).1 ≡ invocations r
  unfolding publish_reply
  publish_reply-invocations reply_to reply r =
      let (failed, s) = emit e reply_to reply r in
      count_publish-invocations failed s ∙ emit-invocations e reply_to reply r

  send_reply-invocations :
      (msg : TransportMessage) (raw : Bytes) (t : Timing) (r : RedisTransport)
      → invocations (send_reply e f service stream msg raw t r).1 ≡ invocations r
  unfolding send_reply make_reply
  send_reply-invocations msg raw t r =
      let (start, r₁) = time_now e f service stream r in
      let (reply, r₂) = make_reply e f service stream msg raw r₁ in
      let (_, r₃) = since e f service stream start r₂ in
      let (_, r₄) = time_now e f service stream r₃ in
      publish_reply-invocations msg.reply_to reply r₄

  reply_unless-invocations :
      (b : Bool) (msg : TransportMessage) (raw : Bytes) (t : Timing) (r : RedisTransport)
      → invocations (reply_unless e f service stream b msg raw t r).1 ≡ invocations r
  unfolding reply_unless
  reply_unless-invocations true msg raw t r = refl
  reply_unless-invocations false msg raw t r = send_reply-invocations msg raw t r

  after_encode_lem :
      (msg : TransportMessage) (start : ℕ) (t : Timing) (o : Result Bytes) (r : RedisTransport)
      → ((after_encode e f service stream msg start t o r).0 ≡ encoding_error o)
        × (invocations (after_encode e f service stream msg start t o r).1 ≡ invocations r)
  unfolding after_encode finish request_failed reply_if_asked
  after_encode_lem msg start t (err x) r = (refl, refl)
  after_encode_lem msg start t (ok raw) r =
      let (encode, r₁) = since e f service stream start r in
      (
        refl,
        reply_unless-invocations (is_empty msg.reply_to) msg raw (record t { encode = encode }) r₁,
      )

  after_call_lem :
      (msg : TransportMessage) (t : Timing) (o : B × Option Error) (r : RedisTransport)
      → ((after_call e f service stream msg t o r).0 ≡ call_error o)
        × (invocations (after_call e f service stream msg t o r).1 ≡ invocations r)
  unfolding after_call request_failed
  after_call_lem msg t (value, some x) r = (refl, refl)
  after_call_lem msg t (value, none) r = after_encode_lem msg _ t (f.marshal_result value) _

  after_validate_lem :
      (msg : TransportMessage) (began start : ℕ) (a : A) (o : Option Error) (r : RedisTransport)
      → ((after_validate e f service stream msg began start a o r).0
          ≡ check_error (invoke stream msg.args ∷ clock ∷ clock ∷ r.history) a o)
        × (invocations (after_validate e f service stream msg began start a o r).1
            ≡ invocations r + passes o)
  unfolding after_validate request_failed
  after_validate_lem msg began start a (some x) r = (refl, omega arith)
  after_validate_lem msg began start a none r =
      let (validate, r₁) = since e f service stream start r in
      let (start₂, r₂) = time_now e f service stream r₁ in
      let (result, r₃) = ask (λ h. f.call h a) (invoke stream msg.args) r₂ in
      let (execute, r₄) = since e f service stream start₂ r₃ in
      let t : Timing = record {
        start = began;
        validate = validate;
        execute = execute;
        encode = 0;
        reply_create = 0;
        reply_publish = 0;
      } in
      let (same, counted) = after_call_lem msg t result r₄ in (same, omega (arith, counted))

  after_decode_lem :
      (msg : TransportMessage) (began start : ℕ) (o : Result A) (r : RedisTransport)
      → ((after_decode e f service stream msg began start o r).0
          ≡ first_error (invoke stream msg.args ∷ clock ∷ clock ∷ r.history) o)
        × (invocations (after_decode e f service stream msg began start o r).1
            ≡ invocations r + accepted o)
  unfolding after_decode request_failed
  after_decode_lem msg began start (err x) r = (refl, omega arith)
  after_decode_lem msg began start (ok a) r =
      after_validate_lem msg began start a (refused_by f.validator a) r

  -- The handler of an RPC method fails with the first error of decoding, validation, the method and
  -- the encoding of its result, and with no other, so not with that of sending the reply. It calls
  -- the method once if the arguments decode and are valid, and otherwise not at all.
  pub rpc_handler-invokes :
      (msg : TransportMessage) (r : RedisTransport)
      → ((rpc_handler e f service stream msg r).0
          ≡ first_error (called_at msg r) (f.unmarshal_args msg.args))
        × (invocations (rpc_handler e f service stream msg r).1
            ≡ invocations r + accepted (f.unmarshal_args msg.args))
  unfolding rpc_handler
  rpc_handler-invokes msg r = after_decode_lem msg _ _ (f.unmarshal_args msg.args) _
