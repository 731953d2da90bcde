-- ===== src/Framework/RoundTrip/Tests.antt =====
-- One call and its method at a concrete input.
use caaspay_core.Prelude.{
  ◌<◌, ◌≡◌, refl, false, none, some, Bytes, codes, [], ◌∷◌, ok, arith, int64, text_eq,
}
use caaspay_core.Prelude.Dict.{get, put}
use caaspay_core.Message.{TransportMessage, new_transport_message, to_json, validate}
use caaspay_core.Codec.{prepare_data}
use caaspay_core.Retry.{retry}
use caaspay_core.Transport.{RedisTransport, Env, string, streams}
use caaspay_core.Transport.Streams.{is_subscribed_to_stream, register_stream, is_stream_overflowing}
use caaspay_core.Transport.Groups.{
  ensure_consumer_group, register_group, launch_cleanup, settle_group, finish_group,
}
use caaspay_core.Transport.Sending.{
  publish, emit, draw_nonce, emit_json, publish_encoded, throttle, dead_letter,
}
use caaspay_core.Transport.Rpc.{
  request, reply_stream_for, listen_round, request_found, send_request, sent, open_channel,
  listen_for_reply, listen_grouped, await_subscribed,
}
use caaspay_core.Transport.Rpc.Frame.{channels_of}
use caaspay_core.Transport.Rpc.Correlation.{IsSound, here}
use caaspay_core.Transport.Samples.{ping, json, crypto_laws, surroundings, started}
use caaspay_core.Service.Rpc.{RpcMethod, rpc_handler, refused_by}
use caaspay_core.Service.Rpc.Replies.{reply_to, published}
use caaspay_core.Framework.{
  RpcCall, Waiting, requested, send_encoded, check_input, checked_input, send_valid, begin_request,
  end_request,
}
use caaspay_core.Framework.RoundTrip.{request_served}

abbrev caller : RpcCall Bytes Bytes
caller = record {
  validator = none;
  marshal_input = λ b. ok b;
  unmarshal_output = λ b. ok b;
  fresh = λ h. codes "m1";
}

abbrev method : RpcMethod Bytes Bytes
method = record {
  unmarshal_args = λ b. ok b;
  validator = none;
  call = λ h b. (b, none);
  marshal_result = λ b. ok b;
  fresh = λ h. codes "u";
}

abbrev asking : TransportMessage
asking = record ping { reply_to = codes "replies"; args = codes "{}" }

abbrev answer : TransportMessage
answer =
    reply_to surroundings method (codes "svc") (codes "rpc:svc:echo") asking (codes "{}") started

-- Redis gives the answer, and encoding/json reads it back.
abbrev redis : Env
redis = record surroundings {
  json = record json { unmarshal = λ b. ok answer };
  reading = λ h.
      streams
        ((codes "replies", record { id = codes "9-0"; body = string (codes "{p}") } ∷ []) ∷ []);
}

abbrev waiting : Waiting
waiting = record { channel = 0; message_id = codes "m1"; start = 7; encode = 0; sent_at = 7 }

abbrev begun : RedisTransport
begun =
    (begin_request redis caller 0 (codes "ping") (codes "s") (codes "c") 30 (codes "{}") started).1

started-IsSound : IsSound (channels_of started)
unfolding get
started-IsSound = record { made = λ k ch h. ground (arith, h); fresh = λ ch le. refl }

request_served_example :
    (published (codes "replies") (codes "{p}") started
      < published
          (codes "replies")
          (codes "{p}")
          (rpc_handler redis method (codes "svc") (codes "rpc:svc:echo") asking started).1)
    × ((t : RedisTransport) × (end_request redis caller 0
            (codes "ping")
            (codes "s")
            (codes "c")
            30
            false
            waiting
            (listen_round redis (codes "replies") begun).1
          ≡ some (ok (codes "{}"), t)))
unfolding begin_request send_valid check_input checked_input send_encoded requested
    new_transport_message request request_found send_request sent open_channel listen_for_reply
    listen_grouped await_subscribed ensure_consumer_group register_group launch_cleanup settle_group
    finish_group emit emit_json draw_nonce publish_encoded to_json prepare_data publish throttle
    dead_letter register_stream is_stream_overflowing retry is_subscribed_to_stream get put text_eq
    reply_stream_for validate refused_by int64
request_served_example =
    request_served redis redis caller method 0 (codes "ping") (codes "s") (codes "c") (codes "svc")
      (codes "rpc:svc:echo") 30 (codes "{}") waiting (codes "{}") (codes "{}") (codes "{}")
      (codes "{}") (codes "{p}") (codes "{p}") [] started begun started asking (codes "replies")
      (codes "replies") (codes "9-0") started-IsSound refl here refl refl refl refl refl refl refl
      refl crypto_laws (λ b h. refl) refl (λ h. cc) refl refl refl refl refl refl refl refl
