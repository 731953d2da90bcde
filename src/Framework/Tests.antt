-- ===== src/Framework/Tests.antt =====
-- The theorems about the framework's context at concrete inputs.
use caaspay_core.Prelude.{
  ◌≡◌, refl, arith, false, none, some, Bytes, codes, [], ◌∷◌, ok, int64, text_eq, is_empty,
}
use caaspay_core.Prelude.Dict.{get, put, erase}
use caaspay_core.Message.{
  TransportMessage, new_transport_message, to_json, validate, decode_transport_message,
}
use caaspay_core.Codec.{prepare_data, process_data}
use caaspay_core.Retry.{retry}
use caaspay_core.Transport.{RedisTransport}
use caaspay_core.Transport.Streams.{
  is_subscribed_to_stream, register_stream, is_stream_overflowing, marked,
  update_stream_subscription_status,
}
use caaspay_core.Transport.Groups.{
  ensure_consumer_group, register_group, launch_cleanup, settle_group, finish_group,
}
use caaspay_core.Transport.Reading.{
  decode_entry, decode_body, decode_processed, accept, read_entries, read_streams, read_reply,
  read_group,
}
use caaspay_core.Transport.Sending.{
  publish, emit, draw_nonce, emit_json, publish_encoded, throttle, dead_letter,
}
use caaspay_core.Transport.Rpc.{
  deliver, deliver_to, deliver_all, is_expired, send, listen_read, request, reply_stream_for,
  listen_round, receive, request_found, send_request, sent, open_channel, listen_for_reply,
  listen_grouped, await_subscribed,
}
use caaspay_core.Transport.Rpc.Frame.{channels_of}
use caaspay_core.Transport.Rpc.Correlation.{IsSound, here, next, listened}
use caaspay_core.Transport.Samples.{ping, surroundings, started}
use caaspay_core.Naming.{stream_type_rpc}
use caaspay_core.Service.{method_stream}
use caaspay_core.Framework.{
  RpcCall, Waiting, build_rpc_stream_name, requested, send_encoded, check_input, checked_input,
  send_valid, begin_request, decoded, finish_with, end_with, end_request,
}
use caaspay_core.Framework.Streams.{build_rpc_stream_name-method_stream}
use caaspay_core.Framework.Calls.{request_answered}

build_rpc_stream_name-method_stream_example :
    (build_rpc_stream_name (codes "billing") (codes "GetRate") []
      ≡ method_stream stream_type_rpc (codes "RPC_") (codes "billing") (codes "RPC_GetRate"))
    × (build_rpc_stream_name (codes "billing") (codes "GetRate") ([] ∷ [])
        ≡ method_stream stream_type_rpc (codes "RPC_") (codes "billing") (codes "RPC_GetRate"))
    × (is_empty (codes "fxrate") ≡ false
        → build_rpc_stream_name (codes "billing") (codes "GetRate") (codes "fxrate" ∷ [])
          ≡ method_stream stream_type_rpc (codes "RPC_") (codes "fxrate") (codes "RPC_GetRate"))
build_rpc_stream_name-method_stream_example =
    build_rpc_stream_name-method_stream (codes "billing") (codes "fxrate") (codes "GetRate") []

abbrev echo : RpcCall Bytes Bytes
echo = record {
  validator = some (λ b. none);
  marshal_input = λ b. ok b;
  unmarshal_output = λ b. ok b;
  fresh = λ h. codes "m1";
}

started-IsSound : IsSound (channels_of started)
unfolding get
started-IsSound = record { made = λ k ch h. ground (arith, h); fresh = λ ch le. refl }

abbrev begun : RedisTransport
begun =
    (begin_request surroundings echo 0 (codes "ping") (codes "s") (codes "c") 30 (codes "{}")
      started).1

abbrev replied : RedisTransport
replied = (listen_round surroundings (codes "replies") begun).1

abbrev waiting : Waiting
waiting = record { channel = 0; message_id = codes "m1"; start = 7; encode = 0; sent_at = 7 }

request_answered_example :
    (m : TransportMessage) × (m.message_id ≡ codes "m1")
    × (echo.unmarshal_output m.response ≡ ok [])
unfolding begin_request send_valid check_input checked_input send_encoded requested decoded
    finish_with end_with end_request new_transport_message request request_found send_request sent
    open_channel listen_for_reply listen_grouped await_subscribed ensure_consumer_group
    register_group launch_cleanup settle_group finish_group emit emit_json draw_nonce
    publish_encoded to_json prepare_data publish throttle dead_letter register_stream
    is_stream_overflowing retry is_subscribed_to_stream get put text_eq reply_stream_for
    listen_round listen_read deliver_all is_expired deliver deliver_to send receive erase
    decode_entry decode_body decode_processed accept read_entries read_streams read_reply read_group
    process_data decode_transport_message validate int64 marked update_stream_subscription_status
request_answered_example =
    request_answered surroundings echo 0 (codes "ping") (codes "s") (codes "c") 30 (codes "{}")
      false waiting [] started replied
      (finish_with surroundings echo 0 (codes "ping") (codes "s") (codes "c") 30 waiting
        (record ping { transport_id = codes "1-0" }) replied).1
      started-IsSound refl (next here (listened (codes "replies") begun)) refl
