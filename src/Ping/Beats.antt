-- ===== src/Ping/Beats.antt =====
-- What the ping service sends.
use caaspay_core.Prelude.{ℕ, ◌+◌, ◌*◌, ◌≡◌, refl, none, Text, Bytes, ◌∷◌, ok}
use caaspay_core.Transport.{RedisTransport, Env, History, fresh_id, clock}
use caaspay_core.Transport.Groups.{millisecond}
use caaspay_core.Service.Emitters.{Pulled, emitter_pull_round}
use caaspay_core.Service.Emitters.Counts.{sent_count, failed_count}
use caaspay_core.Service.Emitters.Pulls.{emitter_pull_round-total}
use caaspay_core.Ping.{PingService, HeartbeatMessage, emitter_pull_heartbeat}

module _ (e : Env) (marshal : HeartbeatMessage → Bytes) (fresh : History → Text)
    (service stream : Text) (s : PingService) where
  -- The heartbeat as the method that the emitter's loop calls.
  abbrev pub beat : History → Pulled
  beat h =
      let first = fresh_id ∷ clock ∷ h in
      let second = fresh_id ∷ first in
      emitter_pull_heartbeat marshal (e.now (clock ∷ h)) (fresh first) (fresh second)
        (e.now (clock ∷ second)) service s

  -- A round of the heartbeat's loop that succeeds counts six messages, each as sent or as one that could
  -- not be sent, and is followed by the next after 10 ms.
  pub heartbeat-counts :
      (next : ℕ) (r : RedisTransport)
      → (emitter_pull_round e beat stream r).0 ≡ ok next
      → (sent_count (emitter_pull_round e beat stream r).1
            + failed_count (emitter_pull_round e beat stream r).1
          ≡ sent_count r + failed_count r + 6)
        × (next ≡ 10 * millisecond)
  unfolding emitter_pull_heartbeat
  heartbeat-counts next r h =
      let (counts, _, same) = emitter_pull_round-total e beat stream _ _ next none r refl h in
      (counts, same)
