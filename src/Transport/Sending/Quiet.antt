-- ===== src/Transport/Sending/Quiet.antt =====
-- Calls that sending does not make.
use caaspay_core.Prelude.{
  ℕ, ◌*◌, ◌≡◌, refl, ◌∙◌, Bool, true, false, Option, none, some, Text, Bytes, codes, List, arith,
  Error, Result, ok, err,
}
use caaspay_core.Message.{TransportMessage, to_json}
use caaspay_core.Codec.{prepare_data}
use caaspay_core.Retry.Keeps.{retry_keeps}
use caaspay_core.Transport.{
  RedisTransport, Env, StreamMeta, zero_meta, Call, Values, xadd, wait, clock, sleep, nonce,
  increment,
}
use caaspay_core.Transport.Calls.{count_calls}
use caaspay_core.Transport.Streams.{register_stream}
use caaspay_core.Transport.Groups.{millisecond}
use caaspay_core.Transport.Reading.{coding}
use caaspay_core.Transport.Sending.{
  emit, emit_json, publish_encoded, publish, throttle, retried, wait_for, add_op, dead_letter,
  publish_to_dlq, draw_nonce,
}

-- A property of calls that no call of `Emit` has.
pub record IsQuiet (p : Call → Bool) : Type 0 where
  pub add : (stream : Text) (v : Values) → p (xadd stream v) ≡ false
  pub waiting : (d : ℕ) → p (wait d) ≡ false
  pub now : p clock ≡ false
  pub sleeping : (d : ℕ) → p (sleep d) ≡ false
  pub random : p nonce ≡ false
  pub failing : (tags : List Text) → p (increment (codes "transport_errors") tags) ≡ false

module _ (e : Env) (p : Call → Bool) (quiet : IsQuiet p) where
  abbrev count : RedisTransport → ℕ
  count r = count_calls p r.history

  register-count :
      (stream : Text) (meta : StreamMeta) (r : RedisTransport)
      → count (register_stream stream meta r).1 ≡ count r
  unfolding register_stream
  register-count stream meta r = ground arith

  throttle-count : (stream : Text) (r : RedisTransport) → count (throttle e stream r).1 ≡ count r
  unfolding throttle
  throttle-count stream r = ground (arith, quiet.sleeping (1000 * millisecond))

  dead_letter-count :
      (stream : Text) (coded : Bytes) (o : Option Error) (r : RedisTransport)
      → count (dead_letter e stream coded o r).1 ≡ count r
  unfolding dead_letter publish_to_dlq
  dead_letter-count stream coded none r = refl
  dead_letter-count stream coded (some x) r = rw (quiet.add, quiet.now) refl

  publish-count :
      (stream : Text) (coded : Bytes) (r : RedisTransport)
      → count (publish e stream coded r).1 ≡ count r
  unfolding publish
  publish-count stream coded r =
      let r₁ = (register_stream stream (record zero_meta { to_trim = true }) r).1 in
      let r₂ = (throttle e stream r₁).1 in
      let (failed, r₃) = retried e r₂.max_retries r₂.retry_delay (add_op e stream coded) r₂ in
      let kept : count r₃ ≡ count r₂ =
        retry_keeps (λ s. count s ≡ count r₂) (wait_for e) (add_op e stream coded)
          (λ d s h. rw (quiet.waiting d) h) (λ s h. rw (quiet.add) h) r₂.max_retries r₂.retry_delay
          r₂ refl in
      dead_letter-count stream coded failed r₃
      ∙ kept
      ∙ throttle-count stream r₁
      ∙ register-count stream (record zero_meta { to_trim = true }) r

  encoded-count :
      (stream : Text) (coded : Result Bytes) (r : RedisTransport)
      → count (publish_encoded e stream coded r).1 ≡ count r
  unfolding publish_encoded
  encoded-count stream (ok coded) r = publish-count stream coded r
  encoded-count stream (err x) r = refl

  draw_nonce-count : (r : RedisTransport) → count (draw_nonce e r).1 ≡ count r
  unfolding draw_nonce
  draw_nonce-count r = ground (arith, quiet.random)

  json-count :
      (stream : Text) (plain : Result Bytes) (r : RedisTransport)
      → count (emit_json e stream plain r).1 ≡ count r
  unfolding emit_json
  json-count stream (err x) r = rw (quiet.failing) refl
  json-count stream (ok plain) r =
      let (fresh, r₁) = draw_nonce e r in
      encoded-count stream (prepare_data e.crypto (coding r₁) fresh plain) r₁ ∙ draw_nonce-count r

  -- `Emit` leaves the count of such calls.
  pub emit-count :
      (stream : Text) (msg : TransportMessage) (r : RedisTransport)
      → count (emit e stream msg r).1 ≡ count r
  unfolding emit
  emit-count stream msg r = json-count stream (to_json e.json msg) r
