-- ===== src/Transport/Tests.antt =====
-- The theorems about the transport at the sample surroundings.
use caaspay_core.Prelude.{
  errorf, ◌↔◌, ◌≡◌, ◌≤◌, ◌+◌, refl, true, some, ok, [], ◌∷◌, Text, codes, length, text_eq, int64,
  if◌then◌else◌, arith,
}
use caaspay_core.Prelude.Dict.{get, put}
use caaspay_core.Message.{
  TransportMessage, new_transport_message, to_json, validate, decode_transport_message,
}
use caaspay_core.Codec.{prepare_data, process_data}
use caaspay_core.Retry.{retry}
use caaspay_core.Retry.Bounds.{IsRetried}
use caaspay_core.Transport.{Env, StreamMeta, RedisTransport, zero_meta, streams, xread_group}
use caaspay_core.Transport.Calls.{is_trim, count_calls, waits_in, is_add, is_ack}
use caaspay_core.Transport.Streams.{
  marked, is_subscribed_to_stream, register_stream, is_stream_overflowing,
}
use caaspay_core.Transport.Groups.{
  ensure_consumer_group, register_group, launch_cleanup, settle_group, finish_group,
}
use caaspay_core.Transport.Reading.{coding, decode_entry, decode_body, decode_processed, read_group}
use caaspay_core.Transport.Reading.Batch.{
  read_group_lem, emit-decode, outcome, acknowledged, kept, kept_streams,
}
use caaspay_core.Transport.Sending.{
  publish, emit, draw_nonce, emit_json, publish_encoded, throttle, dead_letter,
}
use caaspay_core.Transport.Sending.Outcome.{publish-IsRetried, publish-letters, Leaves}
use caaspay_core.Transport.Rpc.{
  request, reply_stream_for, listen_round, receive, request_found, send_request, sent, open_channel,
  listen_for_reply, listen_grouped, await_subscribed,
}
use caaspay_core.Transport.Rpc.Frame.{channels_of}
use caaspay_core.Transport.Rpc.Correlation.{
  request_correlated, IsSound, Reach, here, next, listened,
}
use caaspay_core.Transport.Subscription.{subscribe_round}
use caaspay_core.Transport.Subscription.Rounds.{HandlesOnly, subscribe_round-handles, read_from}
use caaspay_core.Transport.Groups.Once.{LaunchesOnce, ensure_consumer_group-LaunchesOnce}
use caaspay_core.Transport.Startup.{connect}
use caaspay_core.Transport.Startup.Connects.{EndsWithin, connect-EndsWithin}
use caaspay_core.Transport.Trim.{trim_visit}
use caaspay_core.Transport.Trim.Lags.{Lags, trim_visit-overflowing}
use caaspay_core.Transport.Samples.{lagging, ping, crypto_laws, entry, surroundings, started}

started-IsSound : IsSound (channels_of started)
unfolding get
started-IsSound = record { made = λ k ch h. ground (arith, h); fresh = λ ch le. refl }

abbrev asked : RedisTransport
asked = (request surroundings 0 (codes "s") (codes "c") ping started).1

abbrev answered : RedisTransport
answered = (listen_round surroundings (codes "replies") asked).1

reached : Reach surroundings asked answered
reached = next here (listened (codes "replies") asked)

request_correlated_example :
    (length (answered.channels 0) ≤ 1)
    × ((m : TransportMessage)
        → receive surroundings 0 answered ≡ some m
        → m.message_id ≡ codes "m1")
unfolding new_transport_message request request_found send_request sent open_channel
    listen_for_reply listen_grouped await_subscribed ensure_consumer_group register_group
    launch_cleanup settle_group finish_group emit emit_json draw_nonce publish_encoded to_json
    prepare_data publish throttle dead_letter register_stream is_stream_overflowing retry
    is_subscribed_to_stream get put text_eq reply_stream_for
request_correlated_example =
    request_correlated surroundings 0 (codes "s") (codes "c") ping started answered 0
      started-IsSound refl reached

publish-IsRetried_example :
    IsRetried
      (λ r. count_calls (is_add (codes "s") (codes "x")) r.history)
      (λ r. waits_in r.history)
      1
      2
      10
      started
      (publish surroundings (codes "s") (codes "x") started)
publish-IsRetried_example = publish-IsRetried surroundings (codes "s") (codes "x") started

-- Redis refuses everything.
abbrev refusing : Env
refusing = record surroundings { status = λ h. some (errorf (codes "OOM")) }

publish-letters_example :
    Leaves refusing
      (codes "s")
      (codes "x")
      (publish refusing (codes "s") (codes "x") started).0
      started
      (publish refusing (codes "s") (codes "x") started).1
publish-letters_example = publish-letters refusing (codes "s") (codes "x") started

read_group_lem_example : read_group surroundings (codes "s") (codes "g") (codes "i") started ≡ (
  ok (kept_streams surroundings (coding started) ((codes "s", entry ∷ []) ∷ [])),
  record started {
    streams_created = marked (codes "s") true started.streams_created;
    history =
        acknowledged surroundings
          (coding started)
          (codes "g")
          (streams ((codes "s", entry ∷ []) ∷ []))
          (xread_group (codes "g") (codes "i") (codes "s") 1 100 ∷ []);
  },
)
read_group_lem_example = read_group_lem surroundings (codes "s") (codes "g") (codes "i") started

emit-decode_example :
    (emit surroundings (codes "s") ping started
      ≡ publish surroundings (codes "s") (codes "{p}") (draw_nonce surroundings started).1)
    × (decode_entry surroundings (coding started) entry
        ≡ ok (record ping { transport_id = codes "1-0" }))
unfolding to_json validate new_transport_message int64 prepare_data draw_nonce
emit-decode_example =
    emit-decode surroundings (codes "s") (codes "1-0") ping (codes "{p}") (codes "{p}") [] started
      crypto_laws (λ b h. refl) refl (λ h. refl) refl refl refl

only_ping :
    outcome surroundings (coding started) (streams ((codes "s", entry ∷ []) ∷ []))
    ≡ ok (record ping { transport_id = codes "1-0" } ∷ [])
unfolding kept_streams kept decode_entry decode_body decode_processed process_data
    decode_transport_message validate new_transport_message int64
only_ping = refl

subscribe_round-handles_example :
    HandlesOnly
      (record ping { transport_id = codes "1-0" })
      3
      (read_from surroundings (codes "s") (codes "g") started)
      (subscribe_round surroundings (codes "s") (codes "g") started).1.history
    × ((id : Text)
        → count_calls
            (is_ack (codes "s") (codes "g") id)
            (subscribe_round surroundings (codes "s") (codes "g") started).1.history
          ≡ count_calls
              (is_ack (codes "s") (codes "g") id)
              (read_from surroundings (codes "s") (codes "g") started)
            + (if text_eq [] id then 1 else 0))
unfolding new_transport_message
subscribe_round-handles_example =
    subscribe_round-handles surroundings (codes "s") (codes "g")
      (record ping { transport_id = codes "1-0" }) [] started only_ping

started-LaunchesOnce : LaunchesOnce started
started-LaunchesOnce = record { bounded = λ stream group. omega arith }

ensure_consumer_group-LaunchesOnce_example :
    LaunchesOnce
      (ensure_consumer_group surroundings
        (codes "g")
        (codes "t")
        (record zero_meta { to_clean_pending = true })
        started).1
ensure_consumer_group-LaunchesOnce_example =
    ensure_consumer_group-LaunchesOnce (codes "t") (codes "g") surroundings
      (record zero_meta { to_clean_pending = true }) started started-LaunchesOnce

connect-EndsWithin_example : EndsWithin 0 started (connect surroundings 3 0 started)
connect-EndsWithin_example = connect-EndsWithin surroundings 3 0 started (omega arith) (omega arith)

abbrev trimmed_meta : StreamMeta
trimmed_meta = record zero_meta { to_trim = true }

trim_visit-overflowing_example :
    (is_stream_overflowing (codes "s") (trim_visit surroundings (codes "s", trimmed_meta) started).1
        ≡ true
      ↔ Lags 100 (lagging ∷ []))
    × (Lags 100 (lagging ∷ [])
        → count_calls
            (is_trim (codes "s"))
            (trim_visit surroundings (codes "s", trimmed_meta) started).1.history
          ≡ 0)
trim_visit-overflowing_example =
    trim_visit-overflowing surroundings (codes "s") trimmed_meta 1 (lagging ∷ []) started refl refl
      refl refl
