-- ===== src/Transport/Startup.antt =====
-- NewRedisTransport and Close.
pub mod Connects
pub mod Keeps
use caaspay_core.Prelude.{
  ℕ, zero, suc, ◌*◌, ◌%◌, ◌^◌, Bool, ◌&&◌, Option, none, some, Text, codes, List, [], ◌∷◌, ◌++◌,
  Error, errorf, wrap, Result, ok, err, ltb, leb, is_empty, ℤ, pos, negsuc, if◌then◌else◌, ◌==◌,
}
use caaspay_core.Prelude.Dict.{empty}
use caaspay_core.Transport.{
  RedisTransport, Client, single, cluster, other_client, Env, cancel, close, sleep, spawn,
  periodic_trim, History,
}
use caaspay_core.Transport.Act.{Act, ask, tell, ◌>>◌}
use caaspay_core.Transport.Trim.{verify_connection}

pub record RedisTransportConfig : Type 0 where
  pub redis_addr : List Text
  pub service_instance_id : Text
  pub use_cluster : Bool
  pub tls_required : Bool
  pub use_compression : Bool
  pub use_encryption : Bool
  pub service_reply_stream : Text
  pub response_on_service_stream : Bool
  pub response_stream_sub_once : Bool
  pub encryption_key : Text
  pub max_retries : ℤ
  pub retry_delay : ℤ
  pub dlq_stream : Text
  pub move_expired_to_dlq : Bool
  pub pool_size : ℕ
  pub min_idle_conns : ℕ
  pub dial_timeout : ℕ
  pub read_timeout : ℕ
  pub write_timeout : ℕ
  pub stream_read_count : ℕ
  pub stream_trim_max_len : ℕ  -- a negative bound acts as 0
  pub stream_trim_approx : Bool
  pub periodic_trim_freq : ℕ

-- redis.Options and redis.ClusterOptions as the source fills them.
pub record Options : Type 0 where
  pub client : Client
  pub addrs : List Text
  pub tls : Bool
  pub pool_size : ℕ
  pub min_idle_conns : ℕ
  pub dial_timeout : ℕ
  pub read_timeout : ℕ
  pub write_timeout : ℕ

abbrev pub seconds : ℕ → ℕ
seconds n = n * 10 ^ 9

-- `if d == 0 { d = … }`
abbrev pub or_default : ℕ → ℕ → ℕ
or_default d n = if n == 0 then d else n

-- `if n <= 0 { n = … }`
abbrev pub positive_or : ℕ → ℤ → ℕ
positive_or d (pos zero) = d
positive_or d (pos (suc n)) = suc n
positive_or d (negsuc _) = d

abbrev first_addr : List Text → List Text
first_addr [] = codes "localhost:6379" ∷ []
first_addr (a ∷ _) = a ∷ []

unfoldable pub client_options : RedisTransportConfig → Options
client_options cfg = record {
  client = if cfg.use_cluster then cluster else single;
  addrs = if cfg.use_cluster then cfg.redis_addr else first_addr cfg.redis_addr;
  tls = cfg.tls_required;
  pool_size = cfg.pool_size;
  min_idle_conns = cfg.min_idle_conns;
  dial_timeout = or_default (seconds 5) cfg.dial_timeout;
  read_timeout = or_default (seconds 3) cfg.read_timeout;
  write_timeout = or_default (seconds 3) cfg.write_timeout;
}

-- The value that the source fills in before it connects.
unfoldable pub initial :
    RedisTransportConfig → (has_deadline has_metrics : Bool) → History → RedisTransport
initial cfg has_deadline has_metrics h = record {
  client = if cfg.use_cluster then cluster else single;
  has_deadline = has_deadline;
  has_metrics = has_metrics;
  use_compression = cfg.use_compression;
  use_encryption = cfg.use_encryption;
  encryption_key = cfg.encryption_key;
  service_reply_stream = cfg.service_reply_stream;
  response_on_service_stream = cfg.response_on_service_stream;
  service_instance_id = cfg.service_instance_id;
  max_retries = positive_or 300 cfg.max_retries;
  retry_delay = positive_or (seconds 1) cfg.retry_delay;
  block_timeout = or_default (seconds 3) cfg.read_timeout;
  stream_read_count = cfg.stream_read_count;
  dlq_stream =
      if is_empty cfg.dlq_stream then codes "dlq:" ++ cfg.service_reply_stream else cfg.dlq_stream;
  move_expired_to_dlq = cfg.move_expired_to_dlq;
  stream_trim_max_len = cfg.stream_trim_max_len;
  stream_trim_approx = cfg.stream_trim_approx;
  streams_created = empty;
  pending_cleanups = empty;
  reply_router = empty;
  channels = λ c. [];
  next_channel = 0;
  history = h;
}

-- How the loop that checks the connection ends.
pub data Connected : Type 0 where
  connected : Connected
  refused : Error → Connected
  out_of_fuel : Connected

module _ (e : Env) where
  -- `trials` counts the attempts already made; the delay grows with it and wraps in 64 bits.
  unfoldable pub connect : ℕ → ℕ → Act Connected
  unfolding verify_connection
  connect zero trials r = (out_of_fuel, r)
  connect (suc fuel) trials r =
      let (failed, r') = verify_connection e r in
      elim failed [
        | none ↦ (connected, r')
        | some x ↦
            let again =
              connect fuel (suc trials) (record r' {
                history = sleep (r'.retry_delay * suc trials % 2 ^ 64) ∷ r'.history;
              }) in
            if leb r'.max_retries (suc trials)
            then (refused (wrap (codes "failed to connect to Redis") x), r')
            else again
      ]

  unfoldable pub start_trim : ℕ → Act (Unit {0})
  start_trim freq r =
      if ltb 0 freq && ltb 0 r.stream_trim_max_len
      then tell (spawn (codes "redis_periodic_trim") periodic_trim) r
      else (tt, r)

  unfoldable pub finish_start :
      RedisTransportConfig → Connected × RedisTransport → Option (Result RedisTransport)
  unfolding start_trim
  finish_start cfg (connected, r) = some (ok (start_trim cfg.periodic_trim_freq r).1)
  finish_start cfg (refused x, r) = some (err x)
  finish_start cfg (out_of_fuel, r) = none

  -- `none` means that the loop ran out of fuel.
  unfoldable pub new_redis_transport :
      (fuel : ℕ) (cfg : RedisTransportConfig) (has_deadline has_metrics : Bool)
      → History
      → Option (Result RedisTransport)
  unfolding connect initial finish_start
  new_redis_transport fuel cfg has_deadline has_metrics h =
      finish_start cfg (connect fuel 0 (initial cfg has_deadline has_metrics h))

  unfoldable pub close_client : Client → Act (Option Error)
  close_client other_client r = (some (errorf (codes "Cannot close; unknown Redis client type")), r)
  close_client _ r = ask e.status close r

  unfoldable pub close_transport : Act (Option Error)
  unfolding close_client
  close_transport = do tell cancel; λ r. close_client r.client r
