-- ===== src/Service.antt =====
-- base/microservice/internal/service/service.go: the registration of a service's methods. What
-- reflection tells of a method is the record `MethodInfo`.
pub mod Rpc
pub mod Receiver
pub mod Emitters
pub mod Lifecycle
pub mod Running
pub mod HealthServer
pub mod Registry
pub mod Names
mod Tests
use caaspay_core.Prelude.{
  ℕ, ◌+◌, Bool, true, false, ◌&&◌, ◌||◌, not, Option, none, some, Text, codes, List, [], ◌∷◌, ◌++◌,
  Error, errorf, if◌then◌else◌, ◌==◌, has_prefix, trim_prefix, to_lower,
}
use mathlib.Core.Option.{map}
use caaspay_core.Naming.{
  StreamType, StreamConfig, stream_type_rpc, stream_type_emitter, build_stream_name,
}
use caaspay_core.Transport.{
  RedisTransport, Env, Call, increment, fatal, spawn, invoke, emitter_pull, emitter_channel,
}
use caaspay_core.Transport.Act.{Act, pure, ask, tell, gets, ◌>>=◌, ◌>>◌}
use caaspay_core.Transport.Subscription.{subscribe}

pub record MethodInfo : Type 0 where
  pub name : Text
  pub shown : Text  -- method.String()
  pub num_in : ℕ
  pub num_out : ℕ
  pub takes_context : Bool  -- the first argument is a context.Context
  pub takes_struct : Bool  -- the second argument is a pointer to a struct
  pub returns_error : Bool  -- the last result is an error

-- The stream that a method of the service is bound to.
unfoldable pub method_stream : StreamType → (prefix service name : Text) → Text
method_stream kind prefix service name =
    build_stream_name (record {
      kind = kind;
      service = service;
      method = trim_prefix name prefix;
      instance_id = [];
    })

abbrev pub underscore : ℕ
underscore = b'_'

-- strings.ReplaceAll(name, "__", "-")
unfoldable pub dashed : Text → Text
dashed [] = []
dashed (a ∷ []) = a ∷ []
dashed (a ∷ b ∷ s) =
    let found = b'-' ∷ dashed s in
    let next = a ∷ dashed (b ∷ s) in if (a == underscore) && (b == underscore) then found else next

-- strings.SplitN(s, "_", 2), where it gives two parts.
unfoldable pub cut : Text → Option (Text × Text)
cut [] = none
cut (c ∷ s) =
    let rest = cut s in
    if c == underscore
    then some ([], s)
    else elim rest [ none ↦ none | some (a, b) ↦ some (c ∷ a, b) ]

unfoldable pub emitted_by : Text × Text → Text
emitted_by (service, method) = build_stream_name (record {
  kind = stream_type_emitter;
  service = to_lower service;
  method = to_lower method;
  instance_id = [];
})

-- The stream that a receiver listens to, by the name of its method.
unfoldable pub receiver_stream : Text → Option Text
receiver_stream name = map emitted_by (cut (trim_prefix (dashed name) (codes "Receiver_")))

abbrev pub is_rpc_signature : MethodInfo → Bool
is_rpc_signature m = (m.num_in == 2) && ((m.num_out == 2) && m.takes_context)

abbrev pub is_receiver_signature : MethodInfo → Bool
is_receiver_signature m =
    ((m.num_in == 2) && (m.num_out == 1)) && (m.takes_struct && m.returns_error)

abbrev pub stage_tags : (stream stage : Text) → List Text
stage_tags stream stage = codes "stream" ∷ stream ∷ codes "stage" ∷ stage ∷ []

-- What `autoRegisterFunctions` does with the error of a registration.
pub report : (stream stage : Text) → Option Error → Act (Unit {0})
report stream stage none = pure tt
report stream stage (some _) = do
  tell (increment (codes "service_errors") (stage_tags stream stage))
  tell fatal

-- registerEmitterPull; `EmitterChannel` calls its method once to hand over the channel.
pub register_emitter_pull : Text → Act (Option Error)
register_emitter_pull stream = do
  tell (spawn (codes "emitter_pull_" ++ stream) (emitter_pull stream))
  pure none

pub register_emitter_channel : Text → Act (Option Error)
register_emitter_channel stream = do
  tell (invoke stream [])
  tell (spawn (codes "emitter_channel_" ++ stream) (emitter_channel stream))
  pure none

module _ (e : Env) (fuel : ℕ) where
  pub register_rpc_method : Text → MethodInfo → Act (Option Error)
  register_rpc_method stream m =
      if not (is_rpc_signature m)
      then pure (
          some (
            errorf (
              codes "expected: func(context.Context, InputType) (OutputType, error) | got: "
              ++ m.shown)))
      else if not m.returns_error
      then pure (some (errorf (codes "Invalid RPC method return type " ++ m.shown)))
      else subscribe e fuel (codes "rpc_cg") stream

  pub register_receiver : Text → MethodInfo → Act (Option Error)
  register_receiver stream m =
      if m.takes_struct
      then subscribe e fuel (codes "receiver_cg") stream
      else pure (some (errorf (codes "Receiver argument must be pointer to a struct")))

  -- The branch of a receiver; a bad name or signature is only logged.
  pub bind_receiver : MethodInfo → Option Text → Act (Unit {0})
  bind_receiver m none = pure tt
  bind_receiver m (some stream) =
      if is_receiver_signature m
      then (do
        failed ← register_receiver stream m
        report stream (codes "register_receiver") failed)
      else pure tt

  bind_rpc : Text → MethodInfo → Act (Unit {0})
  bind_rpc service m = do
    let stream = method_stream stream_type_rpc (codes "RPC_") service m.name
    failed ← register_rpc_method stream m
    report stream (codes "register_rpc") failed

  bind_emitter_pull : Text → MethodInfo → Act (Unit {0})
  bind_emitter_pull service m = do
    let stream = method_stream stream_type_emitter (codes "EmitterPull_") service m.name
    failed ← register_emitter_pull stream
    report stream (codes "register_emitterpull") failed

  bind_emitter_channel : Text → MethodInfo → Act (Unit {0})
  bind_emitter_channel service m = do
    let stream = method_stream stream_type_emitter (codes "EmitterChannel_") service m.name
    failed ← register_emitter_channel stream
    report stream (codes "register_emitterchannel") failed

  pub bind_method : Text → MethodInfo → Act (Unit {0})
  bind_method service m =
      if has_prefix m.name (codes "RPC_")
      then bind_rpc service m
      else if has_prefix m.name (codes "EmitterPull_")
      then bind_emitter_pull service m
      else if has_prefix m.name (codes "EmitterChannel_")
      then bind_emitter_channel service m
      else if has_prefix m.name (codes "Receiver_")
      then bind_receiver m (receiver_stream m.name)
      else pure tt

  unfoldable pub auto_register_functions : Text → List MethodInfo → Act (Unit {0})
  auto_register_functions service [] = pure tt
  auto_register_functions service (m ∷ ms) = do
    bind_method service m
    auto_register_functions service ms
