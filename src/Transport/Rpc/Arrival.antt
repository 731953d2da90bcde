-- ===== src/Transport/Rpc/Arrival.antt =====
-- A reply that a listener reads reaches the request that waits for it.
use caaspay_core.Prelude.{
  ℕ, ◌≡◌, refl, ap, ◌∙◌, true, false, Bool-cases, some, Text, [], ◌∷◌, ok, arith, is_positive,
  is_after,
}
use caaspay_core.Prelude.Dict.{get}
use caaspay_core.Message.{TransportMessage}
use caaspay_core.Transport.{RedisTransport, Env, Entry, streams, xread_group, clock}
use caaspay_core.Transport.Streams.{marked}
use caaspay_core.Transport.Reading.{coding, decode_entry, read_group}
use caaspay_core.Transport.Reading.Batch.{
  kept, refused, kept_streams, refused_streams, read_group_lem,
}
use caaspay_core.Transport.Rpc.{
  receive, deliver_all, is_expired, listen_read, listen_round, rpc_group,
}
use caaspay_core.Transport.Rpc.Channels.{deliver_all-live}
use caaspay_core.Transport.Rpc.Delivery.{deliver-receive}

module _ (e : Env) (stream : Text) (s : RedisTransport) where
  -- The transport after the read of one message.
  abbrev pub after_read : RedisTransport
  after_read = record s {
    streams_created = marked stream true s.streams_created;
    history =
        xread_group rpc_group s.service_instance_id stream s.stream_read_count s.block_timeout
        ∷ s.history;
  }

  read_one :
      (key : Text) (entry : Entry) (m : TransportMessage)
      → e.reading after_read.history ≡ streams ((key, entry ∷ []) ∷ [])
      → decode_entry e (coding s) entry ≡ ok m
      → read_group e stream rpc_group s.service_instance_id s ≡ (ok (m ∷ []), after_read)
  unfolding kept refused kept_streams refused_streams
  read_one key entry m reads decodes =
      read_group_lem e stream rpc_group s.service_instance_id s ∙ rw (reads, decodes) refl

  is_live :
      (m : TransportMessage)
      → is_after (e.now (clock ∷ after_read.history)) m.deadline ≡ false
      → (is_expired e m after_read).0 ≡ false
  unfolding is_expired
  is_live m early = ground (arith, early, Bool-cases (is_positive m.deadline))

  frame :
      (m : TransportMessage)
      → ((is_expired e m after_read).1.reply_router ≡ s.reply_router)
        × ((is_expired e m after_read).1.channels ≡ s.channels)
  unfolding is_expired
  frame m = ground (arith, Bool-cases (is_positive m.deadline))

  -- A round of the listener that reads one entry, which decodes to a message that is not past its
  -- deadline, hands the message to the empty channel that its id is routed to.
  pub listen_round-receive :
      (key : Text) (entry : Entry) (m : TransportMessage) (ch : ℕ)
      → e.reading after_read.history ≡ streams ((key, entry ∷ []) ∷ [])
      → decode_entry e (coding s) entry ≡ ok m
      → is_after (e.now (clock ∷ after_read.history)) m.deadline ≡ false
      → get m.message_id s.reply_router ≡ some ch
      → s.channels ch ≡ []
      → receive e ch (listen_round e stream s).1 ≡ some m
  unfolding listen_round listen_read deliver_all
  listen_round-receive key entry m ch reads decodes early routed idle =
      let live = (is_expired e m after_read).1 in
      let (same_router, same_channels) = frame m in
      ap (λ x. receive e ch (listen_read e stream x.0 x.1).1) (read_one key entry m reads decodes)
      ∙ ap (λ x. receive e ch x.1) (deliver_all-live e stream m [] after_read (is_live m early))
      ∙ (deliver-receive e stream m ch live (ap (get m.message_id) same_router ∙ routed)
          (ap (λ c. c ch) same_channels ∙ idle)).0
