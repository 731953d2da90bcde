-- ===== src/Framework/Completion.antt =====
-- A reply to a call of RequestRPC completes it.
use caaspay_core.Prelude.{
  ℕ, ◌-◌, ◌≡◌, refl, ap, ◌∙◌, subst, false, some, Text, [], ◌∷◌, Result, ok, is_after,
}
use caaspay_core.Prelude.Dict.{get}
use caaspay_core.Message.{TransportMessage}
use caaspay_core.Transport.{RedisTransport, Env, Entry, streams, clock}
use caaspay_core.Transport.Reading.{coding, decode_entry}
use caaspay_core.Transport.Rpc.{receive, listen_round}
use caaspay_core.Transport.Rpc.Frame.{channels_of}
use caaspay_core.Transport.Rpc.Correlation.{Reach, IsSound, request-IsFor}
use caaspay_core.Transport.Rpc.Arrival.{after_read, listen_round-receive}
use caaspay_core.Framework.{
  RpcCall, Waiting, time_now, begin_request, decoded, finish_with, end_with, end_request,
}
use caaspay_core.Framework.Calls.{begin_request-IsSent}

module _ {A B : Type 0} (e : Env) (f : RpcCall A B) (fuel : ℕ) (own stream caller : Text)
    (timeout : ℕ) where
  decoded-done :
      (w : Waiting) (t : ℕ) (o : Result B) (b : B) (r : RedisTransport)
      → o ≡ ok b
      → (decoded e f fuel own stream caller timeout w t o r).0 ≡ ok b
  unfolding decoded
  decoded-done w t o b r h = rw h refl

  end_request-done :
      (w : Waiting) (m : TransportMessage) (b : B) (s : RedisTransport)
      → receive e w.channel s ≡ some m
      → f.unmarshal_output m.response ≡ ok b
      → (t : RedisTransport) × (end_request e f fuel own stream caller timeout false w s
          ≡ some (ok b, t))
  unfolding end_request end_with finish_with
  end_request-done w m b s got decodes =
      let done = finish_with e f fuel own stream caller timeout w m s in
      let (now, s₁) = time_now e f fuel own stream caller timeout s in
      let s₂ = (time_now e f fuel own stream caller timeout s₁).1 in
      let finished : done.0 ≡ ok b =
        decoded-done w (now - w.sent_at) (f.unmarshal_output m.response) b s₂ decodes in
      (
        done.1,
        ap (λ o. end_with e f fuel own stream caller timeout w o s) got
            ∙ (λ i. some (finished i, done.1)),
      )

  -- A call of RequestRPC whose set-up succeeds from sound channels ends with the decoded response as
  -- soon as a listener reads one entry that decodes to a message with the id of the request, not past
  -- its deadline, while the id is still routed; whatever requests, listener rounds, timeouts and
  -- other work came before.
  pub request_completes :
      (input : A) (w : Waiting) (b : B) (r s : RedisTransport) (listened key : Text) (entry : Entry)
      (m : TransportMessage)
      → IsSound (channels_of r)
      → (begin_request e f fuel own stream caller timeout input r).0 ≡ ok w
      → Reach e (begin_request e f fuel own stream caller timeout input r).1 s
      → get w.message_id s.reply_router ≡ some w.channel
      → e.reading (after_read e listened s).history ≡ streams ((key, entry ∷ []) ∷ [])
      → decode_entry e (coding s) entry ≡ ok m
      → m.message_id ≡ w.message_id
      → is_after (e.now (clock ∷ (after_read e listened s).history)) m.deadline ≡ false
      → f.unmarshal_output m.response ≡ ok b
      → (t : RedisTransport) × (end_request e f fuel own stream caller timeout false w
            (listen_round e listened s).1
          ≡ some (ok b, t))
  request_completes input w b r s listened key entry m sound begun reach waits reads decodes named
        early answers =
      let sent = begin_request-IsSent e f fuel own stream caller timeout input w r sound begun in
      let mine =
        request-IsFor e fuel stream caller sent.msg sent.before s w.channel sent.sound sent.sent
          (subst (λ x. Reach e x s) sent.left reach) in
      end_request-done w m b (listen_round e listened s).1
        (listen_round-receive e listened s key entry m w.channel reads decodes early
          (ap (λ k. get k s.reply_router) named ∙ waits) (mine.idle w.message_id waits))
        answers
