-- ===== src/Framework/Startup/Settings.antt =====
-- base/microservice/internal/framework/framework_context.go: what the settings of the transport and of
-- the service are, by the configuration.
use caaspay_core.Prelude.{
  ℕ, suc, zero, ◌≡◌, refl, sym, subst, true, false, arith, Option, none, some, Text, Bytes, codes,
  ◌++◌, [], ok, or_wrap, bind-ok, or_wrap-ok, ok-injective, ℤ, pos, negsuc,
}
use caaspay_core.Config.{Config, ServiceConfig}
use caaspay_core.Config.Defaults.{default_service_config}
use caaspay_core.Config.ServiceSettings.{
  MapJson, service_settings, map_to_struct, zero_service_config,
}
use caaspay_core.Transport.{RedisTransport, single}
use caaspay_core.Transport.Startup.{initial, positive_or, or_default, seconds}
use caaspay_core.Transport.Startup.Keeps.{bare}
use caaspay_core.Framework.{redis_config}

-- The transport as the configuration sets it, before any call.
abbrev pub configured : {D : Type 0} → Config D → RedisTransport
configured c = initial (redis_config c) false true []

-- A setting that must be positive, and else has a default.
abbrev pub IsPositiveOr : (default : ℕ) → (setting : ℤ) → (value : ℕ) → Type 0
IsPositiveOr d (pos zero) v = v ≡ d
IsPositiveOr d (pos (suc n)) v = v ≡ suc n
IsPositiveOr d (negsuc n) v = v ≡ d

-- A setting that has a default for zero.
abbrev pub IsFilled : (default setting value : ℕ) → Type 0
IsFilled d zero v = v ≡ d
IsFilled d (suc n) v = v ≡ suc n

-- The transport has the settings of the configuration.
pub record IsConfigured {D : Type 0} (c : Config D) (r : RedisTransport) : Type 0 where
  pub client : r.client ≡ single
  pub compresses : r.use_compression ≡ c.framework.transport.use_compression
  pub encrypts : r.use_encryption ≡ c.framework.transport.use_encryption
  pub key : r.encryption_key ≡ c.framework.transport.encryption_key
  pub replies_at : r.service_reply_stream ≡ c.framework.service_name ++ codes "_reply"
  pub replies_on_service :
      r.response_on_service_stream ≡ c.framework.transport.response_on_service_stream
  pub instance_id : r.service_instance_id ≡ c.framework.instance_id
  pub tries : IsPositiveOr 300 c.framework.transport.max_retries r.max_retries
  pub delay : IsPositiveOr (seconds 1) c.framework.transport.retry_delay r.retry_delay
  pub blocks : IsFilled (seconds 3) c.framework.transport.read_timeout r.block_timeout
  pub reads : r.stream_read_count ≡ c.framework.transport.stream_read_count
  pub letters_at : r.dlq_stream ≡ codes "dlq:" ++ (c.framework.service_name ++ codes "_reply")
  pub keeps_expired : r.move_expired_to_dlq ≡ c.framework.transport.move_expired_to_dlq
  pub trims_at : r.stream_trim_max_len ≡ c.framework.transport.stream_trim_max_len
  pub trims_about : r.stream_trim_approx ≡ c.framework.transport.stream_trim_approx

positive_or-IsPositiveOr : (d : ℕ) (n : ℤ) → IsPositiveOr d n (positive_or d n)
positive_or-IsPositiveOr d (pos zero) = refl
positive_or-IsPositiveOr d (pos (suc n)) = refl
positive_or-IsPositiveOr d (negsuc n) = refl

or_default-IsFilled : (d n : ℕ) → IsFilled d n (or_default d n)
or_default-IsFilled d zero = refl
or_default-IsFilled d (suc n) = ground arith

configured-IsConfigured : {D : Type 0} (c : Config D) → IsConfigured c (bare (configured c))
unfolding initial redis_config
configured-IsConfigured c = record {
  client = refl;
  compresses = refl;
  encrypts = refl;
  key = refl;
  replies_at = refl;
  replies_on_service = refl;
  instance_id = refl;
  tries = positive_or-IsPositiveOr 300 c.framework.transport.max_retries;
  delay = positive_or-IsPositiveOr (seconds 1) c.framework.transport.retry_delay;
  blocks = or_default-IsFilled (seconds 3) c.framework.transport.read_timeout;
  reads = refl;
  letters_at = refl;
  keeps_expired = refl;
  trims_at = refl;
  trims_about = refl;
}

-- A transport that differs from the configured one in its calls alone has the settings.
pub same-IsConfigured :
    {D : Type 0} (c : Config D) (r : RedisTransport)
    → bare r ≡ bare (configured c)
    → IsConfigured c r
same-IsConfigured c r h =
    let set = subst (IsConfigured c) (sym h) (configured-IsConfigured c) in
    record {
      client = set.client;
      compresses = set.compresses;
      encrypts = set.encrypts;
      key = set.key;
      replies_at = set.replies_at;
      replies_on_service = set.replies_on_service;
      instance_id = set.instance_id;
      tries = set.tries;
      delay = set.delay;
      blocks = set.blocks;
      reads = set.reads;
      letters_at = set.letters_at;
      keeps_expired = set.keeps_expired;
      trims_at = set.trims_at;
      trims_about = set.trims_about;
    }

module _ {D : Type 0} (json : MapJson D) where
  -- The settings of the service are the default ones where the configuration has no data for it, and
  -- else what encoding/json decodes, over zero values, from what it writes for those data.
  abbrev pub IsDecoded : Option D → ServiceConfig → Type 0
  IsDecoded none s = s ≡ default_service_config
  IsDecoded (some value) s =
      (text : Bytes) × (json.marshal value ≡ ok text)
      × (json.unmarshal text zero_service_config ≡ ok s)

  pub settings-IsDecoded :
      (name : Text) (o : Option D) (s : ServiceConfig)
      → service_settings json name o ≡ ok s
      → IsDecoded o s
  unfolding service_settings map_to_struct
  settings-IsDecoded name none s h = sym (ok-injective h)
  settings-IsDecoded name (some value) s h =
      let mapped = or_wrap-ok _ (map_to_struct json value zero_service_config) s h in
      let (text, encodes, decodes) =
        bind-ok (or_wrap (codes "failed to marshal map to JSON") (json.marshal value)) _ s mapped in
      (
        text,
        or_wrap-ok _ (json.marshal value) text encodes,
        or_wrap-ok _ (json.unmarshal text zero_service_config) s decodes,
      )
