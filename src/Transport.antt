-- ===== src/Transport.antt =====
-- base/microservice/pkg/common/transport/redis_transport.go and dlq.go: the state of
-- RedisTransport and the surroundings that it asks.
-- Every request to Redis, the clock, the context, the supervisor or the caller's handler is a
-- `Call`. The calls made so far are the history of the state, the newest first, and the surroundings
-- (`Env`) are any functions from the history to the answers. So whatever other clients, the network
-- and the scheduler do between two calls is covered. Log lines are left out: they change nothing.
pub mod Act
pub mod Calls
pub mod Streams
pub mod Groups
pub mod Reading
pub mod Sending
pub mod Rpc
pub mod Subscription
pub mod Trim
pub mod Cleanup
pub mod Startup
pub mod Samples
mod Tests
use caaspay_core.Prelude.{
  ℕ, Bool, true, false, Option, none, some, List, [], ◌∷◌, Text, Bytes, Error, Result, ok, err,
}
use caaspay_core.Prelude.Dict.{Dict}
use caaspay_core.Message.{TransportMessage, Json}
use caaspay_core.Codec.{Crypto}

pub record StreamMeta : Type 0 where
  pub to_delete : Bool
  pub to_trim : Bool
  pub to_clean_pending : Bool
  pub group : Text
  pub to_clean_group : Bool
  pub overflowing : Bool
  pub subscribed_to : Bool

-- `StreamMeta{}`
abbrev pub zero_meta : StreamMeta
zero_meta = record {
  to_delete = false;
  to_trim = false;
  to_clean_pending = false;
  group = [];
  to_clean_group = false;
  overflowing = false;
  subscribed_to = false;
}

-- The `body` value of a stream entry: missing, not a string, or a string.
pub data Body : Type 0 where
  missing : Body
  not_string : Body
  string : Bytes → Body

pub record Entry : Type 0 where
  pub id : Text
  pub body : Body

-- What XREADGROUP gives: redis.Nil, another error, or entries by stream.
pub data ReadReply : Type 0 where
  nil : ReadReply
  failed : Error → ReadReply
  streams : List (Text × List Entry) → ReadReply

pub record ConsumerDetail : Type 0 where
  pub name : Text
  pub pending : ℕ
  pub idle : ℕ

pub record ConsumerGroup : Type 0 where
  pub name : Text
  pub lag : ℕ
  pub pending : ℕ
  pub consumers : List ConsumerDetail

pub record StreamStats : Type 0 where
  pub name : Text
  pub length : ℕ
  pub groups : List ConsumerGroup

-- The values of an XADD: a body, or the map of `PublishToDLQ` around bytes or around a message.
pub data Values : Type 0 where
  body : Bytes → Values
  dead_bytes : (original_stream : Text) (body : Bytes) (timestamp : ℕ) → Values
  dead_message : (original_stream : Text) (body : TransportMessage) (timestamp : ℕ) → Values

-- The closures that are handed to the supervisor.
pub data Task : Type 0 where
  cleanup_pending : (stream group : Text) → Task
  listen_reply : (stream : Text) → Task
  subscribe : (stream group : Text) → Task
  periodic_trim : Task
  health_server : Task
  heartbeat : Task
  emitter_pull : (stream : Text) → Task
  emitter_channel : (stream : Text) → Task

pub data Call : Type 0 where
  ping : Call
  exists_stream : Text → Call
  xadd : Text → Values → Call
  xack : (stream group id : Text) → Call
  xgroup_create : (stream group : Text) → Call
  xread_group : (group consumer stream : Text) (count block : ℕ) → Call
  xinfo_stream : Text → Call
  xinfo_groups : Text → Call
  xinfo_consumers : (stream group : Text) → Call
  xtrim : (stream : Text) (approx : Bool) (max_len : ℕ) → Call
  xgroup_del_consumer : (stream group consumer : Text) → Call
  del : Text → Call
  xgroup_destroy : (stream group : Text) → Call
  xpending : (stream group : Text) → Call
  xpending_ext : (stream group : Text) (count : ℕ) → Call
  xrange : (stream id : Text) → Call
  close : Call
  ctx_err : Call  -- ctx.Err()
  cancel : Call
  clock : Call  -- time.Now()
  sleep : ℕ → Call  -- time.Sleep
  wait : ℕ → Call  -- select on ctx.Done and time.After
  nonce : Call  -- crypto/rand
  spawn : Text → Task → Call  -- supervisor.Go and GoLoop
  handle : TransportMessage → Call  -- the handler of a subscription
  fresh_id : Call  -- uuid.NewString()
  invoke : (stream : Text) (args : Bytes) → Call  -- a method of the service, by reflection
  channel : Text → Call  -- a receive from the channel of an emitter
  track : Text → Call  -- compliance
  start_service : Call  -- Start, HealthCheck and Stop of the service
  check_service : Call
  stop_service : Call
  stop_server : Call  -- Shutdown of the HTTP server
  fatal : Call  -- logger.Fatal, which signals a shutdown
  increment : Text → List Text → Call  -- metrics
  observe : Text → ℕ → List Text → Call

abbrev pub History : Type 0
History = List Call

-- The answer to the newest call of a history.
pub record Env : Type 0 where
  pub status : History → Option Error  -- PING, XADD, XACK, XGROUP, DEL, a handler
  pub number : History → Result ℕ  -- EXISTS, XTRIM, XPENDING, XINFO STREAM (the length)
  pub reading : History → ReadReply
  pub range : History → Result (List Entry)
  pub pending_ids : History → Result (List Text)
  pub groups : History → Result (List ConsumerGroup)
  pub consumers : History → Result (List ConsumerDetail)
  pub cancelled : History → Option Error
  pub now : History → ℕ  -- nanoseconds since the epoch
  pub random : History → Result Bytes
  -- what other goroutines make of the registry of streams during a sleep
  pub meanwhile : History → Dict StreamMeta → Dict StreamMeta
  pub json : Json
  pub crypto : Crypto

pub data Client : Type 0 where
  single : Client
  cluster : Client
  other_client : Client

pub record RedisTransport : Type 0 where
  pub client : Client
  pub has_deadline : Bool  -- whether the root context carries a deadline
  pub has_metrics : Bool
  pub use_compression : Bool
  pub use_encryption : Bool
  pub encryption_key : Text
  pub service_reply_stream : Text
  pub response_on_service_stream : Bool
  pub service_instance_id : Text
  pub max_retries : ℕ
  pub retry_delay : ℕ
  pub block_timeout : ℕ
  pub stream_read_count : ℕ
  pub dlq_stream : Text
  pub move_expired_to_dlq : Bool
  pub stream_trim_max_len : ℕ
  pub stream_trim_approx : Bool
  pub streams_created : Dict StreamMeta
  pub pending_cleanups : Dict Bool
  pub reply_router : Dict ℕ  -- the channel that waits for a message id
  pub channels : ℕ → List TransportMessage  -- what each channel of `Request` holds
  pub next_channel : ℕ  -- the channels made so far are those below
  pub history : History
