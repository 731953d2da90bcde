-- ===== src/Transport/Cleanup/Tests.antt =====
-- The theorem about the cleanup at a concrete input, and a run.
use caaspay_core.Prelude.{◌≡◌, refl, ok, [], ◌∷◌, codes, int64, ◌^◌}
use caaspay_core.Message.{new_transport_message, validate, decode_transport_message}
use caaspay_core.Codec.{process_data}
use caaspay_core.Transport.{Env, RedisTransport}
use caaspay_core.Transport.Reading.{decode_entry, decode_body, decode_processed}
use caaspay_core.Transport.Rpc.{is_expired}
use caaspay_core.Transport.Cleanup.{
  cleanup_expired_pending_messages, inspect_counted, inspect_listed, inspect_pending, inspect_found,
  inspect_body, inspect_decoded, drop_expired, dead_letter_expired,
}
use caaspay_core.Transport.Cleanup.Expired.{Inspects, cleanup-Inspects}
use caaspay_core.Transport.Cleanup.Pending.{IsKept, acks}
use caaspay_core.Transport.Samples.{entry, surroundings, started}

-- One pending entry, long past the deadline of its message.
abbrev late : Env
late = record surroundings {
  pending_ids = λ h. ok (codes "1-0" ∷ []);
  range = λ h. ok (entry ∷ []);
  now = λ h. 10 ^ 18;
}

cleanup-Inspects_example :
    (s : RedisTransport) × IsKept late (codes "s") (codes "g") started s
    × Inspects late
        (codes "s")
        (codes "g")
        (codes "1-0" ∷ [])
        s
        (cleanup_expired_pending_messages late (codes "s") (codes "g") started).1
cleanup-Inspects_example = cleanup-Inspects late (codes "s") (codes "g") started

one_acknowledged :
    acks (cleanup_expired_pending_messages late (codes "s") (codes "g") started).1 ≡ 1
unfolding cleanup_expired_pending_messages inspect_counted inspect_listed inspect_pending
    inspect_found inspect_body inspect_decoded drop_expired dead_letter_expired is_expired
    decode_entry decode_body decode_processed process_data decode_transport_message validate
    new_transport_message int64
one_acknowledged = refl
