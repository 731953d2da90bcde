-- ===== src/Service/Rpc/Replies.antt =====
-- What the handler of an RPC method publishes for its caller.
use caaspay_core.Prelude.{
  ℕ, ◌<◌, ◌≡◌, refl, ap, ◌∙◌, true, false, Option, none, some, Text, Bytes, ◌∷◌, [], arith, Error,
  codes, ok, is_empty, length,
}
use caaspay_core.Message.{TransportMessage, to_json, validate, new_transport_message}
use caaspay_core.Codec.{CryptoLaws, prepare_data}
use caaspay_core.Transport.{
  RedisTransport, Env, History, clock, fresh_id, string, track, increment, invoke,
}
use caaspay_core.Transport.Act.{ask}
use caaspay_core.Transport.Calls.{count_calls, is_add}
use caaspay_core.Transport.Reading.{coding, decode_entry}
use caaspay_core.Transport.Reading.Batch.{emit-decode}
use caaspay_core.Transport.Sending.{emit, publish, draw_nonce}
use caaspay_core.Transport.Sending.Outcome.{publish-IsRetried}
use caaspay_core.Service.Rpc.{
  RpcMethod, Timing, refused_by, count_publish, send_reply, make_reply, publish_reply, reply_unless,
  reply_if_asked, time_now, since, finish, after_encode, after_call, after_validate, after_decode,
  rpc_handler, stream_tags,
}
use caaspay_core.Service.Rpc.Invocations.{called_at}

-- How often the bytes were published on the stream.
abbrev pub published : (stream : Text) → Bytes → RedisTransport → ℕ
published stream coded r = count_calls (is_add stream coded) r.history

module _ (e : Env) where
  draw_nonce-published :
      (stream : Text) (coded : Bytes) (r : RedisTransport)
      → published stream coded (draw_nonce e r).1 ≡ published stream coded r
  unfolding draw_nonce
  draw_nonce-published stream coded r = ground arith

  publish-published :
      (stream : Text) (coded : Bytes) (r : RedisTransport)
      → published stream coded r < published stream coded (publish e stream coded r).1
  publish-published stream coded r =
      let h = publish-IsRetried e stream coded r in omega (arith, h.runs)

module _ {A B : Type 0} (e : Env) (f : RpcMethod A B) (service stream : Text) where
  count_publish-published :
      (to : Text) (coded : Bytes) (o : Option Error) (r : RedisTransport)
      → published to coded (count_publish e f service stream o r).1 ≡ published to coded r
  unfolding count_publish
  count_publish-published to coded none r = refl
  count_publish-published to coded (some x) r = refl

  -- The history when the reply is made, and the reply.
  abbrev pub before_reply : TransportMessage → RedisTransport → History
  before_reply msg r = clock ∷ clock ∷ clock ∷ clock ∷ called_at e f service stream msg r

  abbrev pub reply_to : TransportMessage → Bytes → RedisTransport → TransportMessage
  reply_to msg raw r =
      let h = before_reply msg r in
      let blank =
        new_transport_message (f.fresh (fresh_id ∷ h)) (f.fresh (fresh_id ∷ fresh_id ∷ h))
          (e.now (clock ∷ fresh_id ∷ fresh_id ∷ h)) service stream [] none in
      record blank {
        message_id = msg.message_id;
        trace = msg.trace;
        stash = msg.stash;
        response = raw;
      }

  -- The transport when the reply is sent.
  abbrev pub at_reply : TransportMessage → RedisTransport → RedisTransport
  at_reply msg r = record r {
    history = clock ∷ clock ∷ clock ∷ fresh_id ∷ fresh_id ∷ before_reply msg r;
  }

  handler_emits :
      (msg : TransportMessage) (r : RedisTransport) (to : Text) (arg : A) (value : B)
      (raw coded : Bytes)
      → f.unmarshal_args msg.args ≡ ok arg
      → refused_by f.validator arg ≡ none
      → f.call (called_at e f service stream msg r) arg ≡ (value, none)
      → f.marshal_result value ≡ ok raw
      → is_empty msg.reply_to ≡ false
      → published to coded (rpc_handler e f service stream msg r).1
        ≡ published to coded (emit e msg.reply_to (reply_to msg raw r) (at_reply msg r)).1
  unfolding rpc_handler after_decode after_validate after_call after_encode reply_if_asked
      reply_unless send_reply make_reply publish_reply finish
  handler_emits msg r to arg value raw coded decodes passes calls encodes asked =
      let (began, r₁) = time_now e f service stream r in
      let start = e.now (
        clock
        ∷ track (codes "rpc_request")
        ∷ increment (codes "service_requests") (stream_tags stream)
        ∷ r₁.history) in
      let r₂ = record r {
        history =
            clock
            ∷ track (codes "rpc_request")
            ∷ increment (codes "service_requests") (stream_tags stream)
            ∷ r₁.history;
      } in
      let (validate, r₃) = since e f service stream start r₂ in
      let (start₂, r₄) = time_now e f service stream r₃ in
      let (result, r₅) = ask (λ h. f.call h arg) (invoke stream msg.args) r₄ in
      let (execute, r₆) = since e f service stream start₂ r₅ in
      let t : Timing = record {
        start = began;
        validate = validate;
        execute = execute;
        encode = 0;
        reply_create = 0;
        reply_publish = 0;
      } in
      let (start₃, r₇) = time_now e f service stream r₆ in
      let (encode, r₈) = since e f service stream start₃ r₇ in
      let (failed, s) = emit e msg.reply_to (reply_to msg raw r) (at_reply msg r) in
      ap (λ o. published to coded (after_decode e f service stream msg began start o r₂).1) decodes
      ∙ ap (λ o. published to coded (after_validate e f service stream msg began start arg o r₂).1)
          passes
      ∙ ap (λ o. published to coded (after_call e f service stream msg t o r₆).1) calls
      ∙ ap (λ o. published to coded (after_encode e f service stream msg start₃ t o r₇).1) encodes
      ∙ ap
          (λ b.
            published to coded
              (reply_unless e f service stream b msg raw (record t { encode = encode }) r₈).1)
          asked
      ∙ count_publish-published to coded failed s

  -- A call whose arguments decode and are valid and whose method succeeds, with a result that encodes,
  -- publishes its reply where the message asks for one: some bytes go to that stream at least once,
  -- and an entry with them decodes, at a transport with the same coding, to a message with the
  -- request's message id and the encoded result. Needed are the laws of the packages, that the reply
  -- encodes with a nonce of the right size, and an entry id with which it is valid.
  pub rpc_handler-replies :
      (id : Text) (msg : TransportMessage) (r : RedisTransport) (arg : A) (value : B)
      (raw plain coded fresh : Bytes)
      → f.unmarshal_args msg.args ≡ ok arg
      → refused_by f.validator arg ≡ none
      → f.call (called_at e f service stream msg r) arg ≡ (value, none)
      → f.marshal_result value ≡ ok raw
      → is_empty msg.reply_to ≡ false
      → CryptoLaws e.crypto
      → ((b : Bytes)
          → e.json.marshal (reply_to msg raw r) ≡ ok b
          → e.json.unmarshal b ≡ ok (reply_to msg raw r))
      → (draw_nonce e (at_reply msg r)).0 ≡ ok fresh
      → (r.use_encryption ≡ true → length fresh ≡ e.crypto.nonce_size)
      → to_json e.json (reply_to msg raw r) ≡ ok plain
      → prepare_data e.crypto (coding r) (ok fresh) plain ≡ ok coded
      → validate (record (reply_to msg raw r) { transport_id = id }) ≡ none
      → (published msg.reply_to coded r
          < published msg.reply_to coded (rpc_handler e f service stream msg r).1)
        × ((m : TransportMessage) × (decode_entry e
                (coding r)
                (record { id = id; body = string coded })
              ≡ ok m)
            × (m.message_id ≡ msg.message_id)
            × (m.response ≡ raw))
  rpc_handler-replies id msg r arg value raw plain coded fresh decodes passes calls encodes asked
        laws json_law drawn size encoded prepared valid =
      let reply = reply_to msg raw r in
      let r₁ = at_reply msg r in
      let r₂ = (draw_nonce e r₁).1 in
      let (emits, reads) =
        emit-decode e msg.reply_to id reply plain coded fresh r₁ laws json_law drawn size encoded
          prepared valid in
      let same =
        handler_emits msg r msg.reply_to arg value raw coded decodes passes calls encodes asked in
      let emitted = ap (λ x. published msg.reply_to coded x.1) emits in
      (
        omega (
          arith,
          same,
          emitted,
          publish-published e msg.reply_to coded r₂,
          draw_nonce-published e msg.reply_to coded r₁,
        ),
        (record reply { transport_id = id }, reads, refl, refl),
      )
