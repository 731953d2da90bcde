-- ===== src/Transport/Subscription.antt =====
-- Subscribe, and one round of the loop that it starts.
pub mod Rounds
pub mod Delivery
use caaspay_core.Prelude.{
  ℕ, Bool, true, false, Option, none, some, Text, codes, List, [], ◌∷◌, ◌++◌, Error, errorf, wrap,
  Result, ok, err, is_empty, if◌then◌else◌,
}
use caaspay_core.Message.{TransportMessage}
use caaspay_core.Transport.{
  RedisTransport, StreamMeta, zero_meta, Env, Call, xack, spawn, handle, dead_message,
}
use caaspay_core.Transport.{subscribe as subscribe_task}
use caaspay_core.Transport.Act.{Act, pure, ask, tell, gets, ◌>>=◌, ◌>>◌}
use caaspay_core.Transport.Streams.{is_subscribed_to_stream, update_stream_subscription_status}
use caaspay_core.Transport.Groups.{ensure_consumer_group}
use caaspay_core.Transport.Reading.{read_group}
use caaspay_core.Transport.Sending.{publish_to_dlq, retried}
use caaspay_core.Transport.Rpc.{await_subscribed}

abbrev pub subscribe_meta : StreamMeta
subscribe_meta = record zero_meta { to_trim = true; to_clean_pending = true }

abbrev pub group_or_default : Text → Text
group_or_default consumer_group =
    if is_empty consumer_group then codes "consumer_group" else consumer_group

module _ (e : Env) where
  unfoldable pub subscribe_free : (fuel : ℕ) (group stream : Text) → Act (Option Error)
  subscribe_free fuel group stream = do
    already ← gets (is_subscribed_to_stream stream)
    elim already [
      | true ↦
          pure
            (some (errorf (codes "Trying to read from an already subscribed to stream " ++ stream)))
      | false ↦ do
        tell (spawn (codes "redis_subscribe_" ++ stream) (subscribe_task stream group))
        await_subscribed e fuel stream
        pure none
    ]

  unfoldable pub subscribe_grouped :
      (fuel : ℕ) (group stream : Text) → Option Error → Act (Option Error)
  unfolding subscribe_free
  subscribe_grouped fuel group stream (some x) = pure (some x)
  subscribe_grouped fuel group stream none = subscribe_free fuel group stream

  unfoldable pub subscribe : (fuel : ℕ) (consumer_group stream : Text) → Act (Option Error)
  unfolding subscribe_grouped
  subscribe fuel consumer_group stream = do
    let group = group_or_default consumer_group
    failed ← ensure_consumer_group e group stream subscribe_meta
    subscribe_grouped fuel group stream failed

  unfoldable pub after_handler :
      (stream group : Text) → TransportMessage → Option Error → Act (Option Error)
  after_handler stream group m none = do tell (xack stream group m.id); pure none
  after_handler stream group m (some x) = do
    publish_to_dlq e (dead_message stream m)
    tell (xack stream group m.id)
    pure (some (wrap (codes "failed to handle received message after retries") x))

  -- Both ends of the loop's body return, so only the first message of a batch is handled.
  unfoldable pub handle_messages :
      (stream group : Text) → List TransportMessage → Act (Option Error)
  unfolding after_handler
  handle_messages stream group [] = pure none
  handle_messages stream group (m ∷ _) = do
    failed ← (λ r. retried e r.max_retries r.retry_delay (ask e.status (handle m)) r)
    after_handler stream group m failed

  unfoldable pub handle_read :
      (stream group : Text) → Result (List TransportMessage) → Act (Option Error)
  unfolding handle_messages
  handle_read stream group (err _) = pure none
  handle_read stream group (ok messages) = handle_messages stream group messages

  unfoldable pub subscribe_round : (stream group : Text) → Act (Option Error)
  unfolding handle_read
  subscribe_round stream group = do
    update_stream_subscription_status stream true
    consumer ← gets (λ r. r.service_instance_id)
    messages ← read_group e stream group consumer
    handle_read stream group messages
