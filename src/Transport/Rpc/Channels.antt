-- ===== src/Transport/Rpc/Channels.antt =====
-- What each operation of Request and listenForReply does to the router and the channels.
use caaspay_core.Prelude.{
  ℕ, zero, suc, true, false, ◌≡◌, refl, sym, ap, subst, Bool-cases, codes, errorf, ◌∙◌, ◌⊎◌, inl,
  inr, Option, none, some, Text, List, [], ◌∷◌, ◌++◌, arith, Error, Result, ok, err, ◌==◌,
  if◌then◌else◌,
}
use caaspay_core.Prelude.Dict.{get, put, erase}
use caaspay_core.Message.{TransportMessage}
use caaspay_core.Transport.{RedisTransport, Env, exists_stream, xack}
use caaspay_core.Transport.Act.{tell}
use caaspay_core.Transport.Reading.{read_group}
use caaspay_core.Transport.Sending.{emit}
use caaspay_core.Transport.Rpc.{
  request, request_found, send_request, sent, open_channel, reply_stream_for, listen_for_reply,
  time_out, deliver, deliver_to, deliver_all, is_expired, listen_read, listen_round, send,
  rpc_group,
}
use caaspay_core.Transport.Rpc.Frame.{
  Channels, channels_of, frame-emit, frame-listen_for_reply, frame-is_expired, frame-read_group,
}

-- A new channel for a message id.
abbrev pub opened : Text → Channels → Channels
opened id (router, held, next) = (put id next router, held, suc next)

-- The wait for a message id is over.
abbrev pub closed : Text → Channels → Channels
closed id (router, held, next) = (erase id router, held, next)

abbrev pub pushed : TransportMessage → ℕ → Channels → Channels
pushed m ch (router, held, next) =
    (erase m.message_id router, λ c. if c == ch then held c ++ m ∷ [] else held c, next)

abbrev pub delivered_to : TransportMessage → Option ℕ → Channels → Channels
delivered_to m none c = c
delivered_to m (some ch) c = pushed m ch c

-- A reply goes to the channel that waits for its message id, if there is one.
abbrev pub delivered : TransportMessage → Channels → Channels
delivered m c = delivered_to m (get m.message_id c.0) c

module _ (e : Env) where
  channels-sent :
      (ch : ℕ) (o : Option Error) (r : RedisTransport)
      → channels_of (sent e ch o r).1 ≡ channels_of r
  unfolding sent
  channels-sent ch none r = refl
  channels-sent ch (some x) r = refl

  channels-send_request :
      (fuel : ℕ) (stream caller : Text) (msg : TransportMessage) (r : RedisTransport)
      → channels_of (send_request e fuel stream caller msg r).1
        ≡ opened msg.message_id (channels_of r)
  unfolding send_request open_channel
  channels-send_request fuel stream caller msg r =
      let reply_to = reply_stream_for e r stream caller msg in
      let (ch, r₁) = open_channel msg.message_id r in
      let r₂ = (listen_for_reply e fuel reply_to r₁).1 in
      let (failed, r₃) = emit e stream (record msg { reply_to = reply_to }) r₂ in
      channels-sent ch failed r₃
      ∙ frame-emit e stream (record msg { reply_to = reply_to }) r₂
      ∙ frame-listen_for_reply e fuel reply_to r₁

  -- A request opens one channel, or fails before it does.
  channels-request_found :
      (fuel : ℕ) (stream caller : Text) (msg : TransportMessage) (o : Result ℕ) (r : RedisTransport)
      → (channels_of (request_found e fuel stream caller msg o r).1 ≡ channels_of r)
        ⊎ (channels_of (request_found e fuel stream caller msg o r).1
            ≡ opened msg.message_id (channels_of r))
  unfolding request_found
  channels-request_found fuel stream caller msg (err x) r = inl refl
  channels-request_found fuel stream caller msg (ok zero) r = inl refl
  channels-request_found fuel stream caller msg (ok (suc n)) r =
      inr (channels-send_request fuel stream caller msg r)

  pub channels-request :
      (fuel : ℕ) (stream caller : Text) (msg : TransportMessage) (r : RedisTransport)
      → (channels_of (request e fuel stream caller msg r).1 ≡ channels_of r)
        ⊎ (channels_of (request e fuel stream caller msg r).1
            ≡ opened msg.message_id (channels_of r))
  unfolding request
  channels-request fuel stream caller msg r =
      let h = exists_stream stream ∷ r.history in
      channels-request_found fuel stream caller msg (e.number h) (record r { history = h })

  sent-ok :
      (ch ch' : ℕ) (o : Option Error) (r : RedisTransport) → (sent e ch o r).0 ≡ ok ch' → ch' ≡ ch
  unfolding sent
  sent-ok ch ch' none r h = cc
  sent-ok ch ch' (some x) r h = cc

  request_found-ok :
      (fuel : ℕ) (stream caller : Text) (msg : TransportMessage) (o : Result ℕ) (r : RedisTransport)
      (ch : ℕ)
      → (request_found e fuel stream caller msg o r).0 ≡ ok ch
      → (ch ≡ r.next_channel)
        × (channels_of (request_found e fuel stream caller msg o r).1
            ≡ opened msg.message_id (channels_of r))
  unfolding request_found send_request open_channel
  request_found-ok fuel stream caller msg (err x) r ch h = cc
  request_found-ok fuel stream caller msg (ok zero) r ch h = cc
  request_found-ok fuel stream caller msg (ok (suc n)) r ch h =
      let reply_to = reply_stream_for e r stream caller msg in
      let r₁ = (open_channel msg.message_id r).1 in
      let r₂ = (listen_for_reply e fuel reply_to r₁).1 in
      let (failed, r₃) = emit e stream (record msg { reply_to = reply_to }) r₂ in
      (sent-ok r.next_channel ch failed r₃ h, channels-send_request fuel stream caller msg r)

  -- The channel that a request waits on is the one that it opened.
  pub request-ok :
      (fuel : ℕ) (stream caller : Text) (msg : TransportMessage) (r : RedisTransport) (ch : ℕ)
      → (request e fuel stream caller msg r).0 ≡ ok ch
      → (ch ≡ r.next_channel)
        × (channels_of (request e fuel stream caller msg r).1
            ≡ opened msg.message_id (channels_of r))
  unfolding request
  request-ok fuel stream caller msg r ch h =
      let seen = exists_stream stream ∷ r.history in
      request_found-ok fuel stream caller msg (e.number seen) (record r { history = seen }) ch h

  pub channels-time_out :
      (id : Text) (r : RedisTransport) → channels_of (time_out e id r).1 ≡ closed id (channels_of r)
  unfolding time_out
  channels-time_out id r = refl

  channels-deliver_to :
      (stream : Text) (m : TransportMessage) (o : Option ℕ) (r : RedisTransport)
      → channels_of (deliver_to e stream m o r).1 ≡ delivered_to m o (channels_of r)
  unfolding deliver_to send
  channels-deliver_to stream m none r = refl
  channels-deliver_to stream m (some ch) r = refl

  pub channels-deliver :
      (stream : Text) (m : TransportMessage) (r : RedisTransport)
      → channels_of (deliver e stream m r).1 ≡ delivered m (channels_of r)
  unfolding deliver
  channels-deliver stream m r = channels-deliver_to stream m (get m.message_id r.reply_router) r

  -- The two ways on from one message.
  pub deliver_all-expired :
      (stream : Text) (m : TransportMessage) (ms : List TransportMessage) (r : RedisTransport)
      → (is_expired e m r).0 ≡ true
      → deliver_all e stream (m ∷ ms) r ≡ (
        some (errorf (codes "Past DEADLINE " ++ m.message_id)),
        (tell (xack stream rpc_group m.id) (is_expired e m r).1).1,
      )
  unfolding deliver_all
  deliver_all-expired stream m ms r h = ground arith

  pub deliver_all-live :
      (stream : Text) (m : TransportMessage) (ms : List TransportMessage) (r : RedisTransport)
      → (is_expired e m r).0 ≡ false
      → deliver_all e stream (m ∷ ms) r
        ≡ deliver_all e stream ms (deliver e stream m (is_expired e m r).1).1
  unfolding deliver_all
  deliver_all-live stream m ms r h = ground arith

  -- A property of the channels that every delivery keeps is kept by a round of the listener.
  module _ (P : Channels → Type 0)
      (keep : (m : TransportMessage) (c : Channels) → P c → P (delivered m c)) where
    deliver_all-keeps :
        (stream : Text) (ms : List TransportMessage) (r : RedisTransport)
        → P (channels_of r)
        → P (channels_of (deliver_all e stream ms r).1)
    unfolding deliver_all
    deliver_all-keeps stream [] r h = h
    deliver_all-keeps stream (m ∷ ms) r h = elim (Bool-cases (is_expired e m r).0) [
      | inl x ↦ rw (deliver_all-expired stream m ms r x) (subst P (sym (frame-is_expired e m r)) h)
      | inr x ↦ rw (deliver_all-live stream m ms r x) (
          deliver_all-keeps stream ms (deliver e stream m (is_expired e m r).1).1 (
            subst P
              (sym (
                channels-deliver stream m (is_expired e m r).1
                ∙ ap (delivered m) (frame-is_expired e m r)))
              (keep m (channels_of r) h)))
    ]

    listen_read-keeps :
        (stream : Text) (o : Result (List TransportMessage)) (r : RedisTransport)
        → P (channels_of r)
        → P (channels_of (listen_read e stream o r).1)
    unfolding listen_read
    listen_read-keeps stream (err x) r h = h
    listen_read-keeps stream (ok ms) r h = deliver_all-keeps stream ms r h

    pub listen_round-keeps :
        (stream : Text) (r : RedisTransport)
        → P (channels_of r)
        → P (channels_of (listen_round e stream r).1)
    unfolding listen_round
    listen_round-keeps stream r h =
        let (messages, r₁) = read_group e stream rpc_group r.service_instance_id r in
        listen_read-keeps stream messages r₁
          (subst P (sym (frame-read_group e stream rpc_group r.service_instance_id r)) h)
