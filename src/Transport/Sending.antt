-- ===== src/Transport/Sending.antt =====
-- Publish, Emit, and PublishToDLQ of dlq.go.
pub mod Outcome
pub mod Quiet
use caaspay_core.Prelude.{
  ℕ, ◌/◌, ◌*◌, ◌^◌, Bool, true, false, Option, none, some, Text, Bytes, codes, List, [], ◌∷◌, ◌++◌,
  Error, errorf, wrap, Result, ok, err, if◌then◌else◌,
}
use caaspay_core.Message.{TransportMessage, to_json}
use caaspay_core.Codec.{prepare_data}
use caaspay_core.Retry.{retry}
use caaspay_core.Transport.{
  RedisTransport, StreamMeta, zero_meta, Env, Values, body, dead_bytes, dead_message, Call, xadd,
  wait, clock, sleep, nonce, increment,
}
use caaspay_core.Transport.Act.{Act, pure, ask, tell, gets, ◌>>=◌, ◌>>◌}
use caaspay_core.Transport.Streams.{register_stream, is_stream_overflowing}
use caaspay_core.Transport.Reading.{coding}
use caaspay_core.Transport.Groups.{millisecond}

module _ (e : Env) where
  -- The `select` of `Retry`.
  abbrev pub wait_for : ℕ → Act (Option Error)
  wait_for d = ask e.cancelled (wait d)

  -- `retry` on the state of the transport.
  abbrev pub retried : ℕ → ℕ → Act (Option Error) → Act (Option Error)
  retried attempts delay operation = retry wait_for operation attempts delay

  abbrev pub publish_error : Option Error → Option Error
  publish_error none = none
  publish_error (some x) = some (wrap (codes "PublishToDLQ: error publishing to DLQ") x)

  -- `values` makes the map of the dead letter from its time in seconds.
  unfoldable pub publish_to_dlq : (ℕ → Values) → Act (Option Error)
  publish_to_dlq values = do
    now ← ask e.now clock
    failed ← (λ r. ask e.status (xadd r.dlq_stream (values (now / 10 ^ 9))) r)
    pure (publish_error failed)

  unfoldable pub throttle : Text → Act (Unit {0})
  throttle stream r =
      if is_stream_overflowing stream r then tell (sleep (1000 * millisecond)) r else (tt, r)

  abbrev pub add_op : Text → Bytes → Act (Option Error)
  add_op stream coded = ask e.status (xadd stream (body coded))

  unfoldable pub dead_letter : Text → Bytes → Option Error → Act (Option Error)
  dead_letter stream coded none = pure none
  dead_letter stream coded (some x) = do
    publish_to_dlq (dead_bytes stream coded)
    pure (some (wrap (codes "failed to publish message after retries") x))

  unfoldable pub publish : Text → Bytes → Act (Option Error)
  unfolding throttle dead_letter
  publish stream coded = do
    register_stream stream (record zero_meta { to_trim = true })
    throttle stream
    failed ← (λ r. retried r.max_retries r.retry_delay (add_op stream coded) r)
    dead_letter stream coded failed

  unfoldable pub publish_encoded : Text → Result Bytes → Act (Option Error)
  publish_encoded stream (err x) = pure (some x)
  publish_encoded stream (ok coded) = publish stream coded

  -- Random bytes are read where `EncryptAES` runs.
  unfoldable pub draw_nonce : Act (Result Bytes)
  draw_nonce r = if r.use_encryption then ask e.random nonce r else (ok [], r)

  unfoldable pub emit_json : Text → Result Bytes → Act (Option Error)
  unfolding publish_encoded draw_nonce
  emit_json stream (err x) = do
    tell (
        increment (codes "transport_errors")
          (codes "stream" ∷ stream ∷ codes "stage" ∷ codes "emit_msg_tojson" ∷ []))
    pure (some x)
  emit_json stream (ok plain) = do
    random ← draw_nonce
    coded ← gets (λ r. prepare_data e.crypto (coding r) random plain)
    publish_encoded stream coded

  unfoldable pub emit : Text → TransportMessage → Act (Option Error)
  unfolding emit_json
  emit stream msg = emit_json stream (to_json e.json msg)
