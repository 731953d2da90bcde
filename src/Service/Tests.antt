-- ===== src/Service/Tests.antt =====
-- The theorems about the service at concrete inputs.
use caaspay_core.Prelude.{
  ℕ, refl, ◌≡◌, ◌≢◌, ◌+◌, true, none, some, ok, errorf, Bytes, codes, arith, is_empty,
  if◌then◌else◌, Lacks, ◌<◌, [], int64,
}
use caaspay_core.Message.{TransportMessage, new_transport_message, to_json, validate}
use caaspay_core.Codec.{prepare_data}
use caaspay_core.Transport.{Env, string}
use caaspay_core.Transport.Reading.{coding, decode_entry}
use caaspay_core.Transport.Sending.{draw_nonce}
use caaspay_core.Service.Rpc.Replies.{rpc_handler-replies, reply_to, published}
use caaspay_core.Naming.{stream_type_emitter}
use caaspay_core.Transport.Samples.{ping, json, crypto_laws, surroundings, started}
use caaspay_core.Service.{receiver_stream, method_stream, underscore}
use caaspay_core.Service.Lifecycle.{
  new_service_lifecycle, mark_started, mark_ready, mark_shutdown, handle_healthz, handle_livez,
  handle_readyz, ok_200, unavailable_503, shutdown_final, here, next, starts,
}
use caaspay_core.Service.Names.{escaped, receiver_stream-method_stream}
use caaspay_core.Service.Rpc.{RpcMethod, rpc_handler, refused_by}
use caaspay_core.Service.Rpc.Invocations.{
  rpc_handler-invokes, first_error, called_at, invocations, accepted,
}

-- A method on raw bytes that echoes its argument and refuses the empty one.
abbrev echo : RpcMethod Bytes Bytes
echo = record {
  unmarshal_args = λ b. ok b;
  validator = some (λ b. if is_empty b then some (errorf (codes "empty")) else none);
  call = λ h b. (b, none);
  marshal_result = λ b. ok b;
  fresh = λ h. codes "u";
}

abbrev asking : TransportMessage
asking = record ping { reply_to = codes "replies"; args = codes "{}" }

rpc_handler-invokes_example :
    ((rpc_handler surroundings echo (codes "svc") (codes "rpc:svc:echo") asking started).0
      ≡ first_error surroundings echo
          (codes "svc")
          (codes "rpc:svc:echo")
          (called_at surroundings echo (codes "svc") (codes "rpc:svc:echo") asking started)
          (ok (codes "{}")))
    × (invocations
          (rpc_handler surroundings echo (codes "svc") (codes "rpc:svc:echo") asking started).1
        ≡ 0 + accepted surroundings echo (codes "svc") (codes "rpc:svc:echo") (ok (codes "{}")))
rpc_handler-invokes_example =
    rpc_handler-invokes surroundings echo (codes "svc") (codes "rpc:svc:echo") asking started

abbrev the_reply : TransportMessage
the_reply =
    reply_to surroundings echo (codes "svc") (codes "rpc:svc:echo") asking (codes "{}") started

-- Here encoding/json reads the reply back.
abbrev replying : Env
replying = record surroundings { json = record json { unmarshal = λ b. ok the_reply } }

rpc_handler-replies_example :
    (published (codes "replies") (codes "{p}") started
      < published
          (codes "replies")
          (codes "{p}")
          (rpc_handler replying echo (codes "svc") (codes "rpc:svc:echo") asking started).1)
    × ((m : TransportMessage) × (decode_entry replying
            (coding started)
            (record { id = codes "9-0"; body = string (codes "{p}") })
          ≡ ok m)
        × (m.message_id ≡ codes "m1")
        × (m.response ≡ codes "{}"))
unfolding new_transport_message to_json validate prepare_data draw_nonce refused_by int64
rpc_handler-replies_example =
    rpc_handler-replies replying echo (codes "svc") (codes "rpc:svc:echo") (codes "9-0") asking
      started (codes "{}") (codes "{}") (codes "{}") (codes "{p}") (codes "{p}") [] refl refl refl
      refl refl crypto_laws (λ b h. refl) refl (λ h. cc) refl refl refl

a-ne-dash : ◌≢◌ {A = ℕ} b'a' b'-'
a-ne-dash = omega arith

my_service : Lacks underscore (codes "ab-c")
my_service = (omega arith, (omega arith, (omega arith, (omega arith, tt))))

my_method : Lacks underscore (codes "Beat")
my_method = (omega arith, (omega arith, (omega arith, (omega arith, tt))))

receiver_stream-method_stream_example :
    receiver_stream (codes "Receiver_ab__c_Beat")
    ≡ some (
        method_stream stream_type_emitter
          (codes "EmitterPull_")
          (codes "ab-c")
          (codes "EmitterPull_Beat"))
unfolding escaped
receiver_stream-method_stream_example =
    receiver_stream-method_stream b'a' (codes "b-c") (codes "Beat") a-ne-dash my_service my_method

shutdown_final_example :
    (handle_healthz true (mark_started 9 (mark_shutdown (mark_ready (new_service_lifecycle 5))))
      ≡ unavailable_503)
    × (handle_livez (mark_started 9 (mark_shutdown (mark_ready (new_service_lifecycle 5))))
        ≡ unavailable_503)
    × (handle_readyz (mark_ready (new_service_lifecycle 5)) ≡ ok_200
        → handle_readyz (mark_started 9 (mark_shutdown (mark_ready (new_service_lifecycle 5))))
          ≡ ok_200)
shutdown_final_example =
    shutdown_final true (mark_ready (new_service_lifecycle 5))
      (mark_started 9 (mark_shutdown (mark_ready (new_service_lifecycle 5))))
      (next here (starts 9 (mark_shutdown (mark_ready (new_service_lifecycle 5)))))
