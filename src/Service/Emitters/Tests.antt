-- ===== src/Service/Emitters/Tests.antt =====
-- The theorem about pulling emitters at a concrete input.
use caaspay_core.Prelude.{
  ℕ, ◌+◌, ◌≡◌, refl, Option, none, some, Error, codes, [], ◌∷◌, text_eq, int64,
}
use caaspay_core.Prelude.Dict.{get, put}
use caaspay_core.Message.{new_transport_message, to_json}
use caaspay_core.Codec.{prepare_data}
use caaspay_core.Retry.{retry}
use caaspay_core.Transport.{History}
use caaspay_core.Transport.Streams.{register_stream, is_stream_overflowing}
use caaspay_core.Transport.Sending.{
  publish, emit, draw_nonce, emit_json, publish_encoded, throttle, dead_letter,
}
use caaspay_core.Transport.Samples.{ping, surroundings, started}
use caaspay_core.Service.Emitters.{
  Pulled, pulled, ended, count_pulled, pull_messages, pull_finished, pull_called,
  emitter_pull_round,
}
use caaspay_core.Service.Emitters.Counts.{sent_count, failed_count, present}
use caaspay_core.Service.Emitters.Pulls.{emitter_pull_round-counts}

-- A method that gives two messages and a nil.
abbrev twice : History → Pulled
twice h = pulled (some ping ∷ none ∷ some ping ∷ []) 10 none

-- Both messages are sent.
emitter_pull_round-counts_example :
    (2 ≡ present (some ping ∷ none ∷ some ping ∷ []))
    × (sent_count (emitter_pull_round surroundings twice (codes "s") started).1 ≡ 0 + 2)
    × (failed_count (emitter_pull_round surroundings twice (codes "s") started).1 ≡ 0 + 0)
    × (◌≡◌ {A = Option Error} none none)
    × (◌≡◌ {A = ℕ} 10 10)
unfolding emitter_pull_round pull_called pull_messages pull_finished ended count_pulled emit
    emit_json draw_nonce publish_encoded to_json prepare_data publish throttle dead_letter
    register_stream is_stream_overflowing retry get put text_eq new_transport_message int64
emitter_pull_round-counts_example =
    emitter_pull_round-counts surroundings twice (codes "s") (some ping ∷ none ∷ some ping ∷ []) 10
      10 none started refl refl
