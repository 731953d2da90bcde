-- ===== src/Transport/Samples.antt =====
-- Sample surroundings and a sample transport for the tests: Redis accepts all, and every read gives
-- one entry with the message `ping`.
use caaspay_core.Prelude.{refl, true, false, none, ok, [], ◌∷◌, codes, ◌*◌}
use caaspay_core.Prelude.Dict.{empty, put}
use caaspay_core.Message.{TransportMessage, Json, new_transport_message, second}
use caaspay_core.Codec.{Crypto, CryptoLaws}
use caaspay_core.Transport.{
  ConsumerGroup, RedisTransport, zero_meta, Env, Entry, string, streams, single,
}

abbrev pub ping : TransportMessage
ping =
    new_transport_message (codes "m1") (codes "t1") (5 * second) (codes "ping") (codes "Ping")
      (codes "{}") none

abbrev pub json : Json
json = record {
  marshal = λ m. ok (codes "{p}");
  unmarshal = λ b. ok ping;
  unmarshal_map = λ b. ok empty;
}

abbrev pub crypto : Crypto
crypto = record {
  hex_decode = λ t. ok t;
  new_cipher = λ k. none;
  new_gcm = λ k. none;
  nonce_size = 0;
  seal = λ k n d. d;
  unseal = λ k n d. ok d;
  new_writer = none;
  encode_all = λ d. d;
  new_reader = none;
  decode_all = λ d. ok d;
}

pub crypto_laws : CryptoLaws crypto
crypto_laws = record { unseal-seal = λ k n d. refl; decode-encode = λ d. refl; has_reader = refl }

abbrev pub entry : Entry
entry = record { id = codes "1-0"; body = string (codes "{p}") }

abbrev pub lagging : ConsumerGroup
lagging = record { name = codes "g"; lag = 500; pending = 0; consumers = [] }

abbrev pub surroundings : Env
surroundings = record {
  status = λ h. none;
  number = λ h. ok 1;
  reading = λ h. streams ((codes "s", entry ∷ []) ∷ []);
  range = λ h. ok [];
  pending_ids = λ h. ok [];
  groups = λ h. ok (lagging ∷ []);
  consumers = λ h. ok [];
  cancelled = λ h. none;
  now = λ h. 7;
  random = λ h. ok [];
  meanwhile = λ h d. d;
  json = json;
  crypto = crypto;
}

abbrev pub started : RedisTransport
started = record {
  client = single;
  has_deadline = false;
  has_metrics = true;
  use_compression = false;
  use_encryption = false;
  encryption_key = [];
  service_reply_stream = codes "replies";
  response_on_service_stream = true;
  service_instance_id = codes "i";
  max_retries = 3;
  retry_delay = 10;
  block_timeout = 100;
  stream_read_count = 1;
  dlq_stream = codes "dlq";
  move_expired_to_dlq = false;
  stream_trim_max_len = 100;
  stream_trim_approx = true;
  streams_created = put (codes "s") zero_meta empty;
  pending_cleanups = empty;
  reply_router = empty;
  channels = λ ch. [];
  next_channel = 0;
  history = [];
}
