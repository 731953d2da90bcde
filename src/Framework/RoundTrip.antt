-- ===== src/Framework/RoundTrip.antt =====
-- A call and its method, over one Redis.
mod Tests
use caaspay_core.Prelude.{
  ℕ, ◌<◌, ◌≡◌, refl, sym, ap, ◌∙◌, subst, Bool, true, false, Option, none, some, Text, Bytes, List,
  [], ◌∷◌, Error, Result, ok, err, length, is_after, is_empty,
}
use caaspay_core.Prelude.Dict.{get}
use caaspay_core.Message.{TransportMessage, to_json, validate, decode_transport_message}
use caaspay_core.Codec.{Coding, CryptoLaws, prepare_data, process_data}
use caaspay_core.Transport.{
  RedisTransport, Env, Entry, Body, missing, not_string, string, streams, clock,
}
use caaspay_core.Transport.Reading.{coding, decode_entry, decode_body, decode_processed}
use caaspay_core.Transport.Reading.Batch.{emit-decode}
use caaspay_core.Transport.Reading.Packages.{decode-same}
use caaspay_core.Transport.Sending.{draw_nonce}
use caaspay_core.Transport.Rpc.{listen_round}
use caaspay_core.Transport.Rpc.Frame.{channels_of}
use caaspay_core.Transport.Rpc.Correlation.{Reach, IsSound}
use caaspay_core.Transport.Rpc.Arrival.{after_read}
use caaspay_core.Service.Rpc.{RpcMethod, refused_by, rpc_handler}
use caaspay_core.Service.Rpc.Invocations.{called_at}
use caaspay_core.Service.Rpc.Replies.{reply_to, at_reply, published, rpc_handler-replies}
use caaspay_core.Framework.{RpcCall, Waiting, begin_request, end_request}
use caaspay_core.Framework.Completion.{request_completes}

module _ {A B C D : Type 0} (client server : Env) (f : RpcCall A B) (g : RpcMethod C D) (fuel : ℕ)
    (own stream caller service endpoint : Text) (timeout : ℕ) where
  -- A call of RequestRPC and the handler of its method, over one Redis. The call's set-up succeeds
  -- from sound channels, and its id is still routed after whatever the client did since. A service
  -- handles a message with this id, whose arguments decode and are valid, whose method succeeds, and
  -- whose result encodes. Then the reply is published on the stream that the message names, and as
  -- soon as a listener of the client reads the published bytes, before the deadline of the reply, the
  -- call ends with the result as the client decodes it. Needed are the laws of the packages, that the
  -- reply encodes with a nonce of the right size, a valid entry id, and one coding on both sides.
  pub request_served :
      (input : A) (w : Waiting) (arg : C) (value : D) (b : B) (raw plain coded fresh : Bytes)
      (r s q : RedisTransport) (msg : TransportMessage) (listened key id : Text)
      → let reply = reply_to server g service endpoint msg raw q in
        let begun = begin_request client f fuel own stream caller timeout input r in
        let heard = after_read client listened s in
        IsSound (channels_of r)
        → begun.0 ≡ ok w
        → Reach client begun.1 s
        → get w.message_id s.reply_router ≡ some w.channel
        → msg.message_id ≡ w.message_id
        → g.unmarshal_args msg.args ≡ ok arg
        → refused_by g.validator arg ≡ none
        → g.call (called_at server g service endpoint msg q) arg ≡ (value, none)
        → g.marshal_result value ≡ ok raw
        → f.unmarshal_output raw ≡ ok b
        → is_empty msg.reply_to ≡ false
        → CryptoLaws server.crypto
        → ((bytes : Bytes)
            → server.json.marshal reply ≡ ok bytes
            → server.json.unmarshal bytes ≡ ok reply)
        → (draw_nonce server (at_reply server g service endpoint msg q)).0 ≡ ok fresh
        → (q.use_encryption ≡ true → length fresh ≡ server.crypto.nonce_size)
        → to_json server.json reply ≡ ok plain
        → prepare_data server.crypto (coding q) (ok fresh) plain ≡ ok coded
        → validate (record reply { transport_id = id }) ≡ none
        → client.json ≡ server.json
        → client.crypto ≡ server.crypto
        → coding s ≡ coding q
        → client.reading heard.history
          ≡ streams ((key, record { id = id; body = string coded } ∷ []) ∷ [])
        → is_after (client.now (clock ∷ heard.history)) reply.deadline ≡ false
        → (published msg.reply_to coded q
            < published msg.reply_to coded (rpc_handler server g service endpoint msg q).1)
          × ((t : RedisTransport) × (end_request client f fuel own stream caller timeout false w
                  (listen_round client listened s).1
                ≡ some (ok b, t)))
  request_served input w arg value b raw plain coded fresh r s q msg listened key id sound begun
        reach waits named decodes passes calls encodes answers asked laws json_law drawn size
        encoded prepared valid json crypto coded_alike reads early =
      let reply = reply_to server g service endpoint msg raw q in
      let entry : Entry = record { id = id; body = string coded } in
      let (sent, _) =
        rpc_handler-replies server g service endpoint id msg q arg value raw plain coded fresh
          decodes passes calls encodes asked laws json_law drawn size encoded prepared valid in
      let (_, read) =
        emit-decode server msg.reply_to id reply plain coded fresh
          (at_reply server g service endpoint msg q) laws json_law drawn size encoded prepared
          valid in
      (
        sent,
        request_completes client f fuel own stream caller timeout input w b r s listened key entry
            (record reply { transport_id = id }) sound begun reach waits reads
            (ap (λ c. decode_entry client c entry) coded_alike
              ∙ decode-same client server json crypto (coding q) entry
              ∙ read)
            named early answers,
      )
