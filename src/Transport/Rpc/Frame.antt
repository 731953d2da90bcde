-- ===== src/Transport/Rpc/Frame.antt =====
-- What leaves the reply channels alone: all but opening a channel, delivering and timing out.
use caaspay_core.Prelude.{
  ℕ, zero, suc, Bool, true, ◌≡◌, refl, ◌∙◌, Option, none, some, Text, List, [], ◌∷◌, ◌++◌, ◌*◌,
  codes, arith, Bytes, Error, Result, ok, err,
}
use caaspay_core.Prelude.Dict.{Dict}
use caaspay_core.Message.{TransportMessage, to_json}
use caaspay_core.Codec.{prepare_data}
use caaspay_core.Retry.Keeps.{retry_keeps}
use caaspay_core.Transport.{
  RedisTransport, StreamMeta, Env, Entry, ReadReply, zero_meta, xread_group, sleep, spawn,
  listen_reply,
}
use caaspay_core.Transport.Streams.{register_stream, update_stream_subscription_status}
use caaspay_core.Transport.Groups.{ensure_consumer_group, millisecond}
use caaspay_core.Transport.Reading.{
  accept, decode_entry, read_entries, read_streams, read_reply, read_group, coding,
}
use caaspay_core.Transport.Sending.{
  add_op, wait_for, retried, publish_to_dlq, publish, emit, throttle, dead_letter, publish_encoded,
  emit_json, draw_nonce,
}
use caaspay_core.Transport.Rpc.{
  await_subscribed, listen_for_reply, listen_grouped, is_expired, rpc_group, reply_meta,
}

-- The router and the channels.
abbrev pub Channels : Type 0
Channels = Dict ℕ × (ℕ → List TransportMessage) × ℕ

abbrev pub channels_of : RedisTransport → Channels
channels_of r = (r.reply_router, r.channels, r.next_channel)

module _ (e : Env) where
  pub frame-ensure_consumer_group :
      (group stream : Text) (meta : StreamMeta) (r : RedisTransport)
      → channels_of (ensure_consumer_group e group stream meta r).1 ≡ channels_of r
  unfolding ensure_consumer_group
  frame-ensure_consumer_group group stream meta r = ground arith

  frame-read_entries :
      (group stream : Text) (es : List Entry) (r : RedisTransport)
      → channels_of (read_entries e group stream es r).1 ≡ channels_of r
  unfolding read_entries
  frame-read_entries group stream [] r = refl
  frame-read_entries group stream (x ∷ es) r =
      frame-read_entries group stream es (accept e group stream x (decode_entry e (coding r) x) r).1
      ∙ ground arith

  frame-read_streams :
      (group : Text) (ss : List (Text × List Entry)) (r : RedisTransport)
      → channels_of (read_streams e group ss r).1 ≡ channels_of r
  unfolding read_streams
  frame-read_streams group [] r = refl
  frame-read_streams group ((s, es) ∷ ss) r =
      frame-read_streams group ss (read_entries e group s es r).1 ∙ frame-read_entries group s es r

  frame-read_reply :
      (group : Text) (reply : ReadReply) (r : RedisTransport)
      → channels_of (read_reply e group reply r).1 ≡ channels_of r
  unfolding read_reply
  frame-read_reply group ReadReply.nil r = refl
  frame-read_reply group (ReadReply.failed x) r = refl
  frame-read_reply group (ReadReply.streams ss) r = frame-read_streams group ss r

  frame-update :
      (stream : Text) (b : Bool) (r : RedisTransport)
      → channels_of (update_stream_subscription_status stream b r).1 ≡ channels_of r
  unfolding update_stream_subscription_status
  frame-update stream b r = ground arith

  pub frame-read_group :
      (stream group consumer : Text) (r : RedisTransport)
      → channels_of (read_group e stream group consumer r).1 ≡ channels_of r
  unfolding read_group
  frame-read_group stream group consumer r =
      let r₁ = (update_stream_subscription_status stream true r).1 in
      let h =
        xread_group group consumer stream r₁.stream_read_count r₁.block_timeout ∷ r₁.history in
      frame-read_reply group (e.reading h) (record r₁ { history = h }) ∙ frame-update stream true r

  frame-register :
      (stream : Text) (meta : StreamMeta) (r : RedisTransport)
      → channels_of (register_stream stream meta r).1 ≡ channels_of r
  unfolding register_stream
  frame-register stream meta r = ground arith

  frame-throttle :
      (stream : Text) (r : RedisTransport) → channels_of (throttle e stream r).1 ≡ channels_of r
  unfolding throttle
  frame-throttle stream r = ground arith

  frame-dead_letter :
      (stream : Text) (coded : Bytes) (o : Option Error) (r : RedisTransport)
      → channels_of (dead_letter e stream coded o r).1 ≡ channels_of r
  unfolding dead_letter publish_to_dlq
  frame-dead_letter stream coded none r = refl
  frame-dead_letter stream coded (some x) r = refl

  frame-retried :
      (attempts delay : ℕ) (stream : Text) (coded : Bytes) (r : RedisTransport)
      → channels_of (retried e attempts delay (add_op e stream coded) r).1 ≡ channels_of r
  frame-retried attempts delay stream coded r =
      retry_keeps (λ s. channels_of s ≡ channels_of r) (wait_for e) (add_op e stream coded)
        (λ d s h. h) (λ s h. h) attempts delay r refl

  frame-publish :
      (stream : Text) (coded : Bytes) (r : RedisTransport)
      → channels_of (publish e stream coded r).1 ≡ channels_of r
  unfolding publish publish_to_dlq register_stream
  frame-publish stream coded r =
      let r₁ = (register_stream stream (record zero_meta { to_trim = true }) r).1 in
      let r₂ = (throttle e stream r₁).1 in
      let (failed, r₃) = retried e r₂.max_retries r₂.retry_delay (add_op e stream coded) r₂ in
      frame-dead_letter stream coded failed r₃
      ∙ frame-retried r₂.max_retries r₂.retry_delay stream coded r₂
      ∙ frame-throttle stream r₁
      ∙ frame-register stream (record zero_meta { to_trim = true }) r

  frame-publish_encoded :
      (stream : Text) (o : Result Bytes) (r : RedisTransport)
      → channels_of (publish_encoded e stream o r).1 ≡ channels_of r
  unfolding publish_encoded
  frame-publish_encoded stream (err x) r = refl
  frame-publish_encoded stream (ok coded) r = frame-publish stream coded r

  frame-draw_nonce : (r : RedisTransport) → channels_of (draw_nonce e r).1 ≡ channels_of r
  unfolding draw_nonce
  frame-draw_nonce r = ground arith

  frame-emit_json :
      (stream : Text) (o : Result Bytes) (r : RedisTransport)
      → channels_of (emit_json e stream o r).1 ≡ channels_of r
  unfolding emit_json
  frame-emit_json stream (err x) r = refl
  frame-emit_json stream (ok plain) r =
      let (random, r₁) = draw_nonce e r in
      frame-publish_encoded stream (prepare_data e.crypto (coding r₁) random plain) r₁
      ∙ frame-draw_nonce r

  pub frame-emit :
      (stream : Text) (msg : TransportMessage) (r : RedisTransport)
      → channels_of (emit e stream msg r).1 ≡ channels_of r
  unfolding emit
  frame-emit stream msg r = frame-emit_json stream (to_json e.json msg) r

  frame-await_subscribed :
      (fuel : ℕ) (stream : Text) (r : RedisTransport)
      → channels_of (await_subscribed e fuel stream r).1 ≡ channels_of r
  unfolding await_subscribed
  frame-await_subscribed zero stream r = refl
  frame-await_subscribed (suc fuel) stream r =
      let h = sleep (10 * millisecond) ∷ r.history in
      ground (
        arith,
        frame-await_subscribed fuel stream
            (record r { history = h; streams_created = e.meanwhile h r.streams_created }),
      )

  frame-listen_grouped :
      (fuel : ℕ) (stream : Text) (o : Option Error) (r : RedisTransport)
      → channels_of (listen_grouped e fuel stream o r).1 ≡ channels_of r
  unfolding listen_grouped
  frame-listen_grouped fuel stream (some x) r = refl
  frame-listen_grouped fuel stream none r =
      let h = spawn (codes "redis_listenReply_" ++ stream) (listen_reply stream) ∷ r.history in
      ground (arith, frame-await_subscribed fuel stream (record r { history = h }))

  pub frame-listen_for_reply :
      (fuel : ℕ) (stream : Text) (r : RedisTransport)
      → channels_of (listen_for_reply e fuel stream r).1 ≡ channels_of r
  unfolding listen_for_reply
  frame-listen_for_reply fuel stream r =
      let (failed, r₁) = ensure_consumer_group e rpc_group stream reply_meta r in
      frame-listen_grouped fuel stream failed r₁
      ∙ frame-ensure_consumer_group rpc_group stream reply_meta r

  pub frame-is_expired :
      (m : TransportMessage) (r : RedisTransport) → channels_of (is_expired e m r).1 ≡ channels_of r
  unfolding is_expired
  frame-is_expired m r = ground arith
