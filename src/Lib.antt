-- ===== src/Lib.antt =====
-- Verification of the Go microservice framework of caaspay-core (base/microservice).
--
-- The framework runs a service whose methods are bound to Redis streams. `RedisTransport` is its
-- core: it publishes messages, reads them in consumer groups, matches replies with requests, and
-- keeps streams trimmed and clean. Messages are JSON, compressed and encrypted if configured. Files
-- below are those of base/microservice/pkg/common/transport unless they are given with a path.
--
-- * Naming models stream_naming.go: StreamConfig, Normalize, Validate, BuildStreamName
--   (build_stream_name) and ParseStreamName (parse_stream_name).
-- * Message models transport_message.go and base/microservice/pkg/common/fwctx/contextkeys.go: the
--   message, its constructors, Validate, ToJson, DecodeTransportMessage and AttachToContext.
-- * Codec models compression.go, encryption.go, and prepareData and processData of
--   redis_transport.go.
-- * Retry models retry.go.
-- * Transport models redis_transport.go and dlq.go. Its modules follow the methods: Streams
--   (registerStream and the statuses), Groups (ensureConsumerGroup), Reading (readGroup), Sending
--   (Publish, Emit, PublishToDLQ), Rpc (Request, listenForReply), Subscription (Subscribe), Trim
--   (periodic trim, trimStream, IsHealthy), Cleanup, Startup (NewRedisTransport, Close). Samples
--   holds the surroundings of the tests.
-- * Service models base/microservice/internal/service: the registration of methods
--   (autoRegisterFunctions and the register methods of service.go) in Service, the handlers that it
--   makes in Service.Rpc, Service.Receiver and Service.Emitters, lifecycle.go and the handlers of
--   health_server.go in Service.Lifecycle, its routes and its goroutine in Service.HealthServer, Run
--   and Shutdown in Service.Running, registry.go and channels.go in Service.Registry. The handlers
--   and emitters of a service work on the state of the transport.
-- * Supervisor models base/microservice/pkg/common/supervisor/supervisor.go: the state that Go,
--   GoLoop, Shutdown and WaitAndShutdown share in Supervisor, its steps in Supervisor.Steps, the loop
--   of GoLoop in Supervisor.Loop. Supervisor.Basic models basic.go beside it.
-- * Config models base/microservice/pkg/api/config.go, and of
--   base/microservice/internal/config/config.go setDefaults in Config.Defaults, LoadConfig in
--   Config.Load, and MapToStruct in Config.ServiceSettings.
-- * Framework models base/microservice/internal/framework/framework_context.go: the settings that
--   reach the transport, BuildStreamName and BuildRPCStreamName, IsHealthy and RequestRPC.
--   Framework.Startup models NewFrameworkContext, which makes the other parts from the configuration
--   and starts the heartbeat. Framework.RoundTrip joins a call with the handler of its method, over
--   one Redis.
-- * Framework.Bootstrap models base/microservice/internal/framework/bootstrap.go: a process with its
--   service, its supervisor and its logger, and the steps that its goroutines, the operating system
--   and the handler of signals take. The handler acts in one step, from its event to its end.
-- * Ping models base/microservice/cmd/ping.go and base/microservice/pkg/structs/example.go, the
--   service of the process.
-- * Validation models base/microservice/pkg/common/validation/validator.go.
-- * Tracing models base/microservice/pkg/common/tracing/tracing.go.
-- * Logger models base/microservice/pkg/common/logger: NewLogger, the levels, Fatal, the redaction of
--   logger.go and the attributes that the handler of context.go adds.
-- * Metrics models base/microservice/pkg/common/metrics/metrics.go: NewMetrics, the registries of
--   instruments and the operations that record.
-- * HttpClient models base/microservice/internal/httpclient/http_client.go and
--   base/microservice/internal/compliance/compliance_reporting.go, on the state of Metrics.
-- * Deployment models deployment/deploy_generator.go: scanServices in Deployment.Scan,
--   filterServices, the helpers, the environment and credential files, and generateDockerCompose in
--   Deployment.Compose.
-- * Storage models the in-memory store of base/microservice/pkg/common/storage/storage.go.
--
-- A method is state passing over the record RedisTransport. Every request to Redis, the clock, a
-- context, the supervisor or a handler is a call that is put on a history, and the surroundings
-- (Env) answer from the history, so nothing is assumed of other clients, the network or the
-- scheduler. Goroutines are steps on one state; a method that blocks for a
-- reply is split where it blocks, but the set-up of Request, with its polling for the subscription and
-- the retries of its Emit, is one step. A goroutine that ends leaves the map and the WaitGroup of the
-- supervisor in one step. What
-- AttachToContext puts into a context is in Message; of the contexts of Transport only their
-- cancellation is modelled.
--
-- Text is a list of character codes; ToLower acts on the ASCII letters. Durations and deadlines wrap
-- at 64 bits where the source computes with them. The waits for a subscription are bounded by fuel,
-- and what is proved of them holds for every fuel; the connection loop has fuel for each attempt. The
-- fuel of the loop of GoLoop is a number of rounds, and what is proved is about a loop that still runs
-- after them. Packages outside the repository (encoding/json, crypto, zstd, go-redis, viper,
-- net/http, yaml, text/template, validator, OpenTelemetry) are parameters with their documented laws
-- as hypotheses.
--
-- Not modelled: the output of the logs, the spans of single calls, the watch on the configuration
-- files, as viper does it, the loggers and metrics of tests, and the generator of keys, which prints
-- what two packages of the library give.
pub mod Prelude
pub mod Naming
pub mod Message
pub mod Codec
pub mod Retry
pub mod Tracing
pub mod Transport
pub mod Service
pub mod Storage
pub mod Supervisor
pub mod Config
pub mod Framework
pub mod Metrics
pub mod HttpClient
pub mod Logger
pub mod Deployment
pub mod Ping
pub mod Validation
