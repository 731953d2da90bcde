-- ===== src/Transport/Rpc/Delivery.antt =====
-- A reply that is delivered reaches the request that waits for it.
use caaspay_core.Prelude.{ℕ, ◌≡◌, refl, none, some, Text, text_eq_refl, [], ◌∷◌, arith, ==_iff}
use caaspay_core.Prelude.Dict.{get, get-erase}
use caaspay_core.Message.{TransportMessage}
use caaspay_core.Transport.{RedisTransport, Env}
use caaspay_core.Transport.Rpc.{receive, send, deliver_to, deliver}

module _ (e : Env) where
  receive-first_of :
      (ch : ℕ) (m : TransportMessage) (s : RedisTransport)
      → s.channels ch ≡ m ∷ []
      → receive e ch s ≡ some m
  unfolding receive
  receive-first_of ch m s h = rw (receive, h) refl

  delivered-channel :
      (stream : Text) (m : TransportMessage) (ch : ℕ) (r : RedisTransport)
      → r.channels ch ≡ []
      → ((deliver_to e stream m (some ch) r).1.channels ch ≡ m ∷ [])
        × (get m.message_id (deliver_to e stream m (some ch) r).1.reply_router ≡ none)
  unfolding deliver_to send
  delivered-channel stream m ch r h = (
    rw ((==_iff ch ch).1 refl, h) refl,
    ground (arith, get-erase m.message_id m.message_id r.reply_router, text_eq_refl m.message_id),
  )

  deliver-found :
      (stream : Text) (m : TransportMessage) (ch : ℕ) (r : RedisTransport)
      → get m.message_id r.reply_router ≡ some ch
      → deliver e stream m r ≡ deliver_to e stream m (some ch) r
  unfolding deliver
  deliver-found stream m ch r h = rw h refl

  -- A delivered reply whose message id is routed to an empty channel is received there, whole, and
  -- its id is no longer routed.
  pub deliver-receive :
      (stream : Text) (m : TransportMessage) (ch : ℕ) (r : RedisTransport)
      → get m.message_id r.reply_router ≡ some ch
      → r.channels ch ≡ []
      → (receive e ch (deliver e stream m r).1 ≡ some m)
        × (get m.message_id (deliver e stream m r).1.reply_router ≡ none)
  deliver-receive stream m ch r routed idle =
      let s = (deliver_to e stream m (some ch) r).1 in
      let (holds, gone) = delivered-channel stream m ch r idle in
      rw (deliver-found stream m ch r routed) (receive-first_of ch m s holds, gone)
