-- ===== src/Transport/Streams.antt =====
-- The registry of streams: registerStream, isStreamOverflowing, isSubscribedToStream and
-- updateStreamSubscriptionStatus.
use caaspay_core.Prelude.{Bool, false, none, some, Text}
use caaspay_core.Prelude.Dict.{Dict, get, put}
use caaspay_core.Transport.{RedisTransport, StreamMeta}
use caaspay_core.Transport.Act.{Act}

-- LoadOrStore: what is registered already wins. The two resets to `false` of the source change
-- nothing.
unfoldable pub register_stream : Text → StreamMeta → Act StreamMeta
register_stream stream meta r = elim (get stream r.streams_created) [
  | some existing ↦ (existing, r)
  | none ↦ (meta, record r { streams_created = put stream meta r.streams_created })
]

unfoldable pub is_stream_overflowing : Text → RedisTransport → Bool
is_stream_overflowing stream r = elim (get stream r.streams_created) [
  | none ↦ false
  | some m ↦ m.overflowing
]

unfoldable pub is_subscribed_to_stream : Text → RedisTransport → Bool
is_subscribed_to_stream stream r = elim (get stream r.streams_created) [
  | none ↦ false
  | some m ↦ m.subscribed_to
]

-- The registry with the status of a stream set; a stream that is not registered stays out.
unfoldable pub marked : Text → Bool → Dict StreamMeta → Dict StreamMeta
marked stream status metas = elim (get stream metas) [
  | none ↦ metas
  | some m ↦ put stream (record m { subscribed_to = status }) metas
]

-- The method as one step, as it takes effect when its CompareAndSwap succeeds.
unfoldable pub update_stream_subscription_status : Text → Bool → Act (Unit {0})
unfolding marked
update_stream_subscription_status stream status r =
    (tt, record r { streams_created = marked stream status r.streams_created })
