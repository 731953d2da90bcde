-- ===== src/Ping.antt =====
-- base/microservice/cmd/ping.go and base/microservice/pkg/structs/example.go: the service of the
-- process. encoding/json is a parameter; the logs are left out. A method is a change of the fields;
-- what it does to the framework is in its result.
pub mod Beats
mod Tests
use caaspay_core.Prelude.{
  ℕ, suc, ◌+◌, ◌-◌, ◌*◌, ◌/◌, ◌%◌, ◌^◌, Bool, true, false, Option, none, some, Text, Bytes, codes,
  List, [], ◌∷◌, ◌++◌, Error, errorf, Result, ok, err, ltb, is_empty, decimal, if◌then◌else◌,
}
use caaspay_core.Prelude.Dict.{Dict, empty, put}
use caaspay_core.Message.{TransportMessage, new_transport_message}
use caaspay_core.Framework.{build_rpc_stream_name}
use caaspay_core.Transport.Groups.{millisecond}
use caaspay_core.Service.Emitters.{Pulled, pulled}

pub record PingRequest : Type 0 where
  pub message : Text

-- The values of `input` are texts in what the service makes.
pub record PingResponse : Type 0 where
  pub response : Text
  pub input : Dict Text

pub record HeartbeatMessage : Type 0 where
  pub node : Text
  pub uptime : ℕ
  pub status : Text

unfoldable pub validate_request : PingRequest → Option Error
validate_request p =
    if is_empty p.message then some (errorf (codes "message is required")) else none

unfoldable pub validate_response : PingResponse → Option Error
validate_response p =
    if is_empty p.response then some (errorf (codes "response is required")) else none

-- The counters are the bits of an int32. `pushlog` is the channel of the push log, if it is not nil.
pub record PingService : Type 0 where
  pub healthy : Bool
  pub ping_count : ℕ
  pub ping_req : ℕ
  pub caller_count : ℕ
  pub uptime_start : ℕ
  pub emit_closed : Bool
  pub pushlog : Option ℕ

unfoldable pub new_ping_service : (now : ℕ) → PingService
new_ping_service now = record {
  healthy = false;
  ping_count = 0;
  ping_req = 0;
  caller_count = 0;
  uptime_start = now;
  emit_closed = false;
  pushlog = none;
}

-- atomic.AddInt32(&n, 1)
abbrev pub counted : ℕ → ℕ
counted n = suc n % 2 ^ 32

-- strconv.Itoa and `%d` of an int32.
unfoldable pub shown : ℕ → Text
shown n = if ltb n (2 ^ 31) then decimal n else codes "-" ++ decimal (2 ^ 32 - n)

unfoldable pub start_ping : PingService → PingService
start_ping s = record s { healthy = true }

-- A second close of the channel panics.
unfoldable pub stop_ping : PingService → Option PingService
stop_ping s =
    if s.emit_closed then none else some (record s { healthy = false; emit_closed = true })

unfoldable pub rpc_ping : PingRequest → PingService → PingResponse × PingService
rpc_ping input s =
    let n = counted s.ping_count in
    (
      record {
        response = codes "pong " ++ shown n;
        input = put (codes "message") input.message empty;
      },
      record s { ping_count = n },
    )

-- A message of the service, with the source in its trace. The ids are those that uuid.NewString gives.
unfoldable pub traced_message :
    (source : Text) (fresh fresh' : Text) (now : ℕ) (service method : Text)
    → Bytes
    → TransportMessage
traced_message source fresh fresh' now service method raw =
    let msg = new_transport_message fresh fresh' now service method raw none in
    record msg { trace = put (codes "source") source msg.trace }

unfoldable pub heartbeat_message : (service : Text) (now : ℕ) → PingService → HeartbeatMessage
heartbeat_message service now s = record {
  node = service;
  uptime = (now - s.uptime_start) / 10 ^ 9;
  status = codes "alive";
}

-- One message, six times. An error of the encoding is dropped: the message then holds no bytes.
unfoldable pub emitter_pull_heartbeat :
    (marshal : HeartbeatMessage → Bytes) (now : ℕ) (fresh fresh' : Text) (made_at : ℕ)
    (service : Text)
    → PingService
    → Pulled
unfolding traced_message heartbeat_message
emitter_pull_heartbeat marshal now fresh fresh' made_at service s =
    let msg =
      traced_message (codes "emitter_pull") fresh fresh' made_at service (codes "ping.heartbeat")
        (marshal (heartbeat_message service now s)) in
    pulled (some msg ∷ some msg ∷ some msg ∷ some msg ∷ some msg ∷ some msg ∷ []) (10 * millisecond)
      none

unfoldable pub emitter_channel_push_log : (channel : ℕ) → PingService → PingService
emitter_channel_push_log channel s = record s { pushlog = some channel }

-- `Receiver_example__service_Heartbeat` and `Receiver_example__service_Pushlog`, on any message.
unfoldable pub receive_heartbeat : {A : Type 0} → A → Option Error
receive_heartbeat msg = none

unfoldable pub receive_pushlog : {A : Type 0} → A → Option Error
receive_pushlog msg = none

-- What HealthCheck does before it blocks, or in all.
pub record Checked : Type 0 where
  pub stream : Text
  pub request : PingRequest  -- sent twice, whatever the answers
  pub note : Text
  pub pushed_to : Option ℕ  -- `none` is the nil channel, on which a send blocks for good
  pub after : PingService

-- `HealthCheck` up to the send on the channel.
unfoldable pub health_check : (service : Text) → PingService → Checked
health_check service s =
    let c = counted s.caller_count in
    let n = counted s.ping_req in
    record {
      stream = build_rpc_stream_name service (codes "Ping") [];
      request = record { message = shown c ++ (codes " CALLER " ++ shown n) };
      note = codes "TTTTTTTT " ++ shown n;
      pushed_to = s.pushlog;
      after = record s { caller_count = c; ping_req = n };
    }

-- The rest of HealthCheck, where the send goes through: whether the failure of its HTTP request signals
-- a shutdown, and the result, which is always nil.
unfoldable pub after_push : {A : Type 0} → Result A → Bool × Option Error
after_push (ok reply) = (false, none)
after_push (err x) = (true, none)
