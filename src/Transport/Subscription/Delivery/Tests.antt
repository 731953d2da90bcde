-- ===== src/Transport/Subscription/Delivery/Tests.antt =====
-- The theorem about a message on its way to a handler at a concrete input.
use caaspay_core.Prelude.{◌≡◌, ◌≢◌, refl, codes, [], int64}
use caaspay_core.Message.{new_transport_message, to_json, validate}
use caaspay_core.Codec.{prepare_data}
use caaspay_core.Transport.Calls.{count_calls, is_ack}
use caaspay_core.Transport.Sending.{publish, emit, draw_nonce}
use caaspay_core.Transport.Subscription.{subscribe_round}
use caaspay_core.Transport.Subscription.Rounds.{HandlesOnly, read_from}
use caaspay_core.Transport.Subscription.Delivery.{delivered, emit-handles}
use caaspay_core.Transport.Samples.{ping, crypto_laws, surroundings, started}

emit-handles_example :
    (emit surroundings (codes "s") ping started
      ≡ publish surroundings (codes "s") (codes "{p}") (draw_nonce surroundings started).1)
    × HandlesOnly
        (delivered (codes "1-0") ping)
        3
        (read_from surroundings (codes "s") (codes "g") started)
        (subscribe_round surroundings (codes "s") (codes "g") started).1.history
    × (ping.id ≢ codes "1-0"
        → count_calls
            (is_ack (codes "s") (codes "g") (codes "1-0"))
            (subscribe_round surroundings (codes "s") (codes "g") started).1.history
          ≡ count_calls
              (is_ack (codes "s") (codes "g") (codes "1-0"))
              (read_from surroundings (codes "s") (codes "g") started))
unfolding to_json validate new_transport_message int64 prepare_data draw_nonce
emit-handles_example =
    emit-handles surroundings surroundings (codes "s") (codes "1-0") ping (codes "{p}")
      (codes "{p}") [] started started (codes "s") (codes "g") crypto_laws (λ b h. refl) refl
      (λ h. refl) refl refl refl refl refl refl refl
