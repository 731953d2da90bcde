-- ===== src/Transport/Subscription/Delivery.antt =====
-- From the publication of a message to the handler of a subscriber.
mod Tests
use caaspay_core.Prelude.{
  ℕ, ◌+◌, ◌≡◌, ◌≢◌, refl, sym, ap, ◌∙◌, true, none, Option, Text, text_eq, text_eq-ne, Bytes, List,
  [], ◌∷◌, arith, length, ok, if◌then◌else◌,
}
use caaspay_core.Message.{TransportMessage, to_json, validate}
use caaspay_core.Codec.{CryptoLaws, prepare_data}
use caaspay_core.Transport.{RedisTransport, Env, Entry, string, streams}
use caaspay_core.Transport.Calls.{count_calls, is_ack}
use caaspay_core.Transport.Reading.{coding, decode_entry}
use caaspay_core.Transport.Reading.Batch.{outcome, kept, kept_streams, emit-decode}
use caaspay_core.Transport.Reading.Packages.{decode-same}
use caaspay_core.Transport.Sending.{publish, emit, draw_nonce}
use caaspay_core.Transport.Subscription.{subscribe_round}
use caaspay_core.Transport.Subscription.Rounds.{
  HandlesOnly, asked, read_from, subscribe_round-handles,
}

-- The entry that Redis makes of published bytes.
abbrev pub entry_of : (id : Text) → Bytes → Entry
entry_of id coded = record { id = id; body = string coded }

-- The message as a subscriber decodes it.
abbrev pub delivered : (id : Text) → TransportMessage → TransportMessage
delivered id msg = record msg { transport_id = id }

module _ (publisher subscriber : Env) (stream id : Text) (msg : TransportMessage)
    (plain coded fresh : Bytes) (r : RedisTransport) where
  module _ (s : RedisTransport) (key group : Text) where
    reads_one :
        subscriber.reading (asked subscriber stream group s)
          ≡ streams ((key, entry_of id coded ∷ []) ∷ [])
        → decode_entry subscriber (coding s) (entry_of id coded) ≡ ok (delivered id msg)
        → outcome subscriber (coding s) (subscriber.reading (asked subscriber stream group s))
          ≡ ok ((delivered id msg) ∷ [])
    unfolding kept kept_streams
    reads_one reads decodes = rw (reads, decodes) refl

    -- A message that is emitted is published as some bytes, and a round of a subscriber that reads an
    -- entry with these bytes hands this message, under the id of the entry, to the handler: once and at
    -- most `max_retries - 1` times more. The round does not acknowledge the entry, unless its id is the
    -- message's own `id`. Needed are the laws of the packages, a nonce of the right size where there is
    -- encryption, an entry id with which the message is valid, and the same packages and coding on both
    -- sides.
    pub emit-handles :
        CryptoLaws publisher.crypto
        → ((b : Bytes) → publisher.json.marshal msg ≡ ok b → publisher.json.unmarshal b ≡ ok msg)
        → (draw_nonce publisher r).0 ≡ ok fresh
        → (r.use_encryption ≡ true → length fresh ≡ publisher.crypto.nonce_size)
        → to_json publisher.json msg ≡ ok plain
        → prepare_data publisher.crypto (coding r) (ok fresh) plain ≡ ok coded
        → validate (delivered id msg) ≡ none
        → subscriber.json ≡ publisher.json
        → subscriber.crypto ≡ publisher.crypto
        → coding s ≡ coding r
        → subscriber.reading (asked subscriber stream group s)
          ≡ streams ((key, entry_of id coded ∷ []) ∷ [])
        → (emit publisher stream msg r ≡ publish publisher stream coded (draw_nonce publisher r).1)
          × HandlesOnly
              (delivered id msg)
              s.max_retries
              (read_from subscriber stream group s)
              (subscribe_round subscriber stream group s).1.history
          × (msg.id ≢ id
              → count_calls
                  (is_ack stream group id)
                  (subscribe_round subscriber stream group s).1.history
                ≡ count_calls (is_ack stream group id) (read_from subscriber stream group s))
    emit-handles laws json_law drawn size encoded prepared valid json crypto alike reads =
        let (sent, read) =
          emit-decode publisher stream id msg plain coded fresh r laws json_law drawn size encoded
            prepared valid in
        let decodes =
          ap (λ c. decode_entry subscriber c (entry_of id coded)) alike
          ∙ decode-same subscriber publisher json crypto (coding r) (entry_of id coded)
          ∙ read in
        let (handles, acks) =
          subscribe_round-handles subscriber stream group (delivered id msg) [] s
            (reads_one reads decodes) in
        (sent, handles, λ other. acks id ∙ rw (text_eq-ne msg.id id other) (omega arith))
