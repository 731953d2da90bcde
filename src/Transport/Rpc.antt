-- ===== src/Transport/Rpc.antt =====
-- Request and listenForReply. `Request` blocks in a `select` at its end, so it is two operations:
-- `request` up to the `select`, and then `receive` or `time_out`, with the work of the other
-- goroutines between them.
pub mod Frame
pub mod Channels
pub mod Correlation
pub mod Delivery
pub mod Arrival
use caaspay_core.Prelude.{
  ℕ, zero, suc, ◌+◌, ◌*◌, Bool, true, false, ◌&&◌, Option, none, some, Text, codes, List, [], ◌∷◌,
  ◌++◌, Error, errorf, wrap, Result, ok, err, is_empty, is_positive, is_after, if◌then◌else◌, ◌==◌,
}
use caaspay_core.Prelude.Dict.{get, put, erase}
use caaspay_core.Message.{TransportMessage}
use caaspay_core.Transport.{
  RedisTransport, StreamMeta, zero_meta, Env, Call, exists_stream, xack, sleep, clock, spawn,
  listen_reply, ctx_err,
}
use caaspay_core.Transport.Act.{Act, pure, ask, tell, gets, modify, ◌>>=◌, ◌>>◌}
use caaspay_core.Transport.Streams.{is_subscribed_to_stream}
use caaspay_core.Transport.Groups.{millisecond, ensure_consumer_group}
use caaspay_core.Transport.Reading.{read_group}
use caaspay_core.Transport.Sending.{emit}

abbrev pub rpc_group : Text
rpc_group = codes "rpc_cg"

abbrev pub reply_meta : StreamMeta
reply_meta = record zero_meta {
  to_delete = true;
  to_trim = true;
  to_clean_pending = true;
  to_clean_group = true;
}

-- A channel of capacity 1 that waits for the reply with the given message id.
unfoldable pub open_channel : Text → Act ℕ
open_channel message_id r = (
  r.next_channel,
  record r {
    reply_router = put message_id r.next_channel r.reply_router;
    next_channel = suc r.next_channel;
  },
)

-- `typedCh <- decoded`
unfoldable pub send : ℕ → TransportMessage → RedisTransport → RedisTransport
send ch m r = record r { channels = λ c. if c == ch then r.channels c ++ m ∷ [] else r.channels c }

module _ (e : Env) where
  -- `for !isSubscribedToStream { time.Sleep(10ms) }`, with a bound on the rounds; `false` means
  -- that the bound was met. During a sleep the other goroutines run.
  unfoldable pub await_subscribed : ℕ → Text → Act Bool
  await_subscribed zero stream r = (is_subscribed_to_stream stream r, r)
  await_subscribed (suc fuel) stream r =
      let h = sleep (10 * millisecond) ∷ r.history in
      let later =
        await_subscribed fuel stream
          (record r { history = h; streams_created = e.meanwhile h r.streams_created }) in
      if is_subscribed_to_stream stream r then (true, r) else later

  unfoldable pub listen_grouped : ℕ → Text → Option Error → Act (Unit {0})
  listen_grouped fuel reply_stream (some _) = pure tt
  listen_grouped fuel reply_stream none = do
    already ← gets (is_subscribed_to_stream reply_stream)
    if already then pure tt else do
      tell (spawn (codes "redis_listenReply_" ++ reply_stream) (listen_reply reply_stream))
      await_subscribed fuel reply_stream
      pure tt

  unfoldable pub listen_for_reply : ℕ → Text → Act (Unit {0})
  unfolding listen_grouped
  listen_for_reply fuel reply_stream = do
    failed ← ensure_consumer_group e rpc_group reply_stream reply_meta
    listen_grouped fuel reply_stream failed

  -- The stream that a request names for its reply.
  unfoldable pub reply_stream_for :
      RedisTransport → (stream caller : Text) → TransportMessage → Text
  reply_stream_for r stream caller msg =
      if is_empty msg.reply_to
      then (if r.response_on_service_stream
          then r.service_reply_stream
          else codes "reply:"
            ++ (stream ++ (codes ":" ++ (r.service_instance_id ++ (codes ":" ++ caller)))))
      else msg.reply_to

  unfoldable pub sent : ℕ → Option Error → Act (Result ℕ)
  sent ch none = pure (ok ch)
  sent ch (some x) = pure (err (wrap (codes "failed to send request after retries") x))

  unfoldable pub send_request :
      (fuel : ℕ) (stream caller : Text) → TransportMessage → Act (Result ℕ)
  unfolding sent
  send_request fuel stream caller msg = do
    reply_to ← gets (λ r. reply_stream_for r stream caller msg)
    ch ← open_channel msg.message_id
    listen_for_reply fuel reply_to
    failed ← emit e stream (record msg { reply_to = reply_to })
    sent ch failed

  unfoldable pub request_found :
      (fuel : ℕ) (stream caller : Text) → TransportMessage → Result ℕ → Act (Result ℕ)
  unfolding send_request
  request_found fuel stream caller msg (err x) =
      pure (err (wrap (codes "failed to verify stream(" ++ (stream ++ codes ") existence")) x))
  request_found fuel stream caller msg (ok zero) =
      pure (err (errorf (codes "target RPC stream does not exist: " ++ stream)))
  request_found fuel stream caller msg (ok (suc _)) = send_request fuel stream caller msg

  -- `Request` up to its `select`; a success is the channel that it then waits on.
  unfoldable pub request : (fuel : ℕ) (stream caller : Text) → TransportMessage → Act (Result ℕ)
  unfolding request_found
  request fuel stream caller msg = do
    exists ← ask e.number (exists_stream stream)
    request_found fuel stream caller msg exists

  -- `case response := <-responseCh`, which is chosen only when the channel holds a message.
  unfoldable pub receive : ℕ → RedisTransport → Option TransportMessage
  receive ch r = elim (r.channels ch) [ [] ↦ none | m ∷ _ ↦ some m ]

  -- `case <-time.After(timeout)`
  unfoldable pub time_out : Text → Act Error
  time_out message_id r = (
    errorf (codes "request timeout"),
    record r { reply_router = erase message_id r.reply_router },
  )

  unfoldable pub deliver_to : Text → TransportMessage → Option ℕ → Act (Unit {0})
  deliver_to reply_stream m none = pure tt
  deliver_to reply_stream m (some ch) = do
    modify (λ r. record r { reply_router = erase m.message_id r.reply_router })
    modify (send ch m)
    tell (xack reply_stream rpc_group m.transport_id)

  -- LoadAndDelete on the router, and the send; a stray reply is only logged.
  unfoldable pub deliver : Text → TransportMessage → Act (Unit {0})
  unfolding deliver_to
  deliver reply_stream m = do
    waiting ← gets (λ r. get m.message_id r.reply_router)
    deliver_to reply_stream m waiting

  -- `decoded.Deadline > 0 && time.Now().After(…)`; the clock is read only if there is a deadline.
  unfoldable pub is_expired : TransportMessage → Act Bool
  is_expired m =
      if is_positive m.deadline
      then (do now ← ask e.now clock; pure (is_after now m.deadline))
      else pure false

  -- The loop over the replies ends at the first that is past its deadline.
  unfoldable pub deliver_all : Text → List TransportMessage → Act (Option Error)
  deliver_all reply_stream [] = pure none
  deliver_all reply_stream (m ∷ ms) = do
    expired ← is_expired m
    elim expired [
      | true ↦ do
        tell (xack reply_stream rpc_group m.id)
        pure (some (errorf (codes "Past DEADLINE " ++ m.message_id)))
      | false ↦ do deliver reply_stream m; deliver_all reply_stream ms
    ]

  unfoldable pub listen_read : Text → Result (List TransportMessage) → Act (Option Error)
  unfolding deliver_all
  listen_read reply_stream (ok messages) = deliver_all reply_stream messages
  listen_read reply_stream (err x) = do
    stopped ← ask e.cancelled ctx_err
    pure (elim stopped [ none ↦ some x | some _ ↦ none ])

  -- One round of the loop that `listenForReply` starts.
  unfoldable pub listen_round : Text → Act (Option Error)
  unfolding listen_read
  listen_round reply_stream = do
    consumer ← gets (λ r. r.service_instance_id)
    messages ← read_group e reply_stream rpc_group consumer
    listen_read reply_stream messages
