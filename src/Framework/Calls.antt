-- ===== src/Framework/Calls.antt =====
-- A call of RequestRPC that succeeds got the reply to its own request.
use caaspay_core.Prelude.{
  ℕ, ◌≡◌, refl, sym, ap, ◌∙◌, subst, Bool, true, false, Option, none, some, some-injective,
  Option-cases, inl, inr, Text, Bytes, arith, ◌-◌, Error, Result, ok, err,
}
use caaspay_core.Message.{TransportMessage, new_transport_message}
use caaspay_core.Transport.{RedisTransport, Env, fresh_id}
use caaspay_core.Transport.Act.{ask}
use caaspay_core.Transport.Rpc.{receive}
use caaspay_core.Transport.Rpc.{request as send_request}
use caaspay_core.Transport.Rpc.Frame.{channels_of}
use caaspay_core.Transport.Rpc.Correlation.{Reach, IsSound, request_correlated}
use caaspay_core.Framework.{
  RpcCall, Waiting, time_now, requested, send_encoded, check_input, checked_input, send_valid,
  begin_request, decoded, end_with, finish_with, end_request,
}

module _ {A B : Type 0} (e : Env) (f : RpcCall A B) (fuel : ℕ) (own stream caller : Text)
    (timeout : ℕ) where
  -- A request was sent at a sound transport and left this one.
  pub record IsSent (w : Waiting) (after : RedisTransport) : Type 0 where
    pub before : RedisTransport
    pub msg : TransportMessage
    pub sound : IsSound (channels_of before)
    pub named : msg.message_id ≡ w.message_id
    pub sent : (send_request e fuel stream caller msg before).0 ≡ ok w.channel
    pub left : after ≡ (send_request e fuel stream caller msg before).1

  requested-ok :
      (w v : Waiting) (o : Result ℕ) (r : RedisTransport)
      → (requested e f fuel own stream caller timeout w o r).0 ≡ ok v
      → (o ≡ ok v.channel)
        × (w.message_id ≡ v.message_id)
        × ((requested e f fuel own stream caller timeout w o r).1 ≡ r)
  unfolding requested
  requested-ok w v (err x) r h = absurd (ground (arith, h))
  requested-ok w v (ok ch) r h = ground (arith, h)

  send_encoded-IsSent :
      (start estart : ℕ) (o : Result Bytes) (w : Waiting) (r : RedisTransport)
      → IsSound (channels_of r)
      → (send_encoded e f fuel own stream caller timeout start estart o r).0 ≡ ok w
      → IsSent w (send_encoded e f fuel own stream caller timeout start estart o r).1
  unfolding send_encoded new_transport_message
  send_encoded-IsSent start estart (err x) w r sound h = absurd (ground (arith, h))
  send_encoded-IsSent start estart (ok raw) w r sound h =
      let (encoded_at, r₁) = time_now e f fuel own stream caller timeout r in
      let (message_id, r₂) = ask f.fresh fresh_id r₁ in
      let (transport_id, r₃) = ask f.fresh fresh_id r₂ in
      let (now, r₄) = time_now e f fuel own stream caller timeout r₃ in
      let m = new_transport_message message_id transport_id now own stream raw (some timeout) in
      let (tstart, r₅) = time_now e f fuel own stream caller timeout r₄ in
      let (o, r₆) = send_request e fuel stream caller m r₅ in
      let v : Waiting = record {
        channel = 0;
        message_id = message_id;
        start = start;
        encode = encoded_at - estart;
        sent_at = tstart;
      } in
      let (good, name, same) = requested-ok v w o r₆ h in
      record { before = r₅; msg = m; sound = sound; named = name; sent = good; left = same }

  send_valid-IsSent :
      (start : ℕ) (input : A) (refused : Option Error) (w : Waiting) (r : RedisTransport)
      → IsSound (channels_of r)
      → (send_valid e f fuel own stream caller timeout start input refused r).0 ≡ ok w
      → IsSent w (send_valid e f fuel own stream caller timeout start input refused r).1
  unfolding send_valid
  send_valid-IsSent start input (some x) w r sound h = absurd (ground (arith, h))
  send_valid-IsSent start input none w r sound h =
      let (estart, r₁) = time_now e f fuel own stream caller timeout r in
      send_encoded-IsSent start estart (f.marshal_input input) w r₁ sound h

  -- The validator reads the clock and nothing else.
  channels-check_input :
      (v : Option (A → Option Error)) (input : A) (r : RedisTransport)
      → channels_of (check_input e f fuel own stream caller timeout v input r).1 ≡ channels_of r
  unfolding check_input checked_input
  channels-check_input none input r = refl
  channels-check_input (some v) input r = elim (Option-cases (v input)) [
    | inl q ↦ rw q refl
    | inr (x, q) ↦ rw q refl
  ]

  pub begin_request-IsSent :
      (input : A) (w : Waiting) (r : RedisTransport)
      → IsSound (channels_of r)
      → (begin_request e f fuel own stream caller timeout input r).0 ≡ ok w
      → IsSent w (begin_request e f fuel own stream caller timeout input r).1
  unfolding begin_request
  begin_request-IsSent input w r sound h =
      let (start, r₁) = time_now e f fuel own stream caller timeout r in
      let (refused, r₂) = check_input e f fuel own stream caller timeout f.validator input r₁ in
      send_valid-IsSent start input refused w r₂
        (subst IsSound (sym (channels-check_input f.validator input r₁)) sound) h

  decoded-ok :
      (w : Waiting) (t : ℕ) (o : Result B) (b : B) (r : RedisTransport)
      → (decoded e f fuel own stream caller timeout w t o r).0 ≡ ok b
      → o ≡ ok b
  unfolding decoded
  decoded-ok w t (err x) b r h = absurd (ground (arith, h))
  decoded-ok w t (ok output) b r h = ground (arith, h)

  end_with-ok :
      (w : Waiting) (o : Option TransportMessage) (b : B) (s t : RedisTransport)
      → end_with e f fuel own stream caller timeout w o s ≡ some (ok b, t)
      → (m : TransportMessage) × (o ≡ some m) × (f.unmarshal_output m.response ≡ ok b)
  unfolding end_with finish_with
  end_with-ok w none b s t h = absurd (ground (arith, h))
  end_with-ok w (some m) b s t h =
      let (now, s₁) = time_now e f fuel own stream caller timeout s in
      let s₂ = (time_now e f fuel own stream caller timeout s₁).1 in
      let at = now - w.sent_at in
      (
        m,
        refl,
        decoded-ok w at (f.unmarshal_output m.response) b s₂ (ap (λ x. x.0) (some-injective _ _ h)),
      )

  end_request-ok :
      (timer : Bool) (w : Waiting) (b : B) (s t : RedisTransport)
      → end_request e f fuel own stream caller timeout timer w s ≡ some (ok b, t)
      → (m : TransportMessage) × (receive e w.channel s ≡ some m)
        × (f.unmarshal_output m.response ≡ ok b)
  unfolding end_request
  end_request-ok true w b s t h = absurd (ground (arith, h))
  end_request-ok false w b s t h = end_with-ok w (receive e w.channel s) b s t h

  -- A RequestRPC that starts from sound channels and succeeds, whatever requests, listener rounds,
  -- timeouts and other work come in between, returns the decoded response of a message that has the
  -- message id of its own request.
  pub request_answered :
      (input : A) (timer : Bool) (w : Waiting) (b : B) (r s t : RedisTransport)
      → IsSound (channels_of r)
      → (begin_request e f fuel own stream caller timeout input r).0 ≡ ok w
      → Reach e (begin_request e f fuel own stream caller timeout input r).1 s
      → end_request e f fuel own stream caller timeout timer w s ≡ some (ok b, t)
      → (m : TransportMessage) × (m.message_id ≡ w.message_id)
        × (f.unmarshal_output m.response ≡ ok b)
  request_answered input timer w b r s t sound begun reach ended =
      let sent = begin_request-IsSent input w r sound begun in
      let (m, got, decodes) = end_request-ok timer w b s t ended in
      let (_, own_reply) =
        request_correlated e fuel stream caller sent.msg sent.before s w.channel sent.sound
          sent.sent (subst (λ x. Reach e x s) sent.left reach) in
      (m, own_reply m got ∙ sent.named, decodes)
