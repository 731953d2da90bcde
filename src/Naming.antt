-- ===== src/Naming.antt =====
-- base/microservice/pkg/common/transport/stream_naming.go: the names of the Redis streams.
-- The proofs are in the modules below.
pub mod Parts
pub mod RoundTrip
mod Tests
use caaspay_core.Prelude.{
  ℕ, Bool, true, false, ◌||◌, Option, none, some, List, [], ◌∷◌, ◌++◌, Text, codes, text_eq,
  is_empty, to_lower, if◌then◌else◌, ◌==◌, Error, errorf, Result, ok, err,
}

-- StreamType is a string.
abbrev pub StreamType : Type 0
StreamType = Text

abbrev pub stream_type_rpc : StreamType
stream_type_rpc = codes "rpc"

abbrev pub stream_type_emitter : StreamType
stream_type_emitter = codes "emitter"

abbrev pub stream_type_receiver : StreamType
stream_type_receiver = codes "receiver"

abbrev pub stream_type_reply : StreamType
stream_type_reply = codes "reply"

abbrev pub stream_type_service : StreamType
stream_type_service = codes "service"

pub record StreamConfig : Type 0 where
  pub kind : StreamType  -- the field `Type`
  pub service : Text
  pub method : Text
  pub instance_id : Text

unfoldable pub normalize : StreamConfig → StreamConfig
normalize s = record {
  kind = to_lower s.kind;
  service = to_lower s.service;
  method = to_lower s.method;
  instance_id = to_lower s.instance_id;
}

abbrev pub colon : ℕ
colon = b':'

-- strings.ContainsAny(s, ":")
pub has_colon : Text → Bool
has_colon [] = false
has_colon (c ∷ s) = (c == colon) || has_colon s

needs_method : StreamType → Bool
needs_method t =
    text_eq t stream_type_rpc || (text_eq t stream_type_emitter || text_eq t stream_type_receiver)

no_method : StreamType → Bool
no_method t = text_eq t stream_type_reply || text_eq t stream_type_service

-- The check for colons that ends `Validate`.
check_colons : StreamConfig → Option Error
check_colons s =
    if has_colon s.service || (has_colon s.method || has_colon s.instance_id)
    then some (errorf (codes "service, method, and instanceID must not contain ':'"))
    else none

-- The `nil` error is `none`.
unfoldable pub validate : StreamConfig → Option Error
unfolding needs_method no_method check_colons has_colon
validate s =
    if is_empty s.kind
    then some (errorf (codes "stream type is required"))
    else if is_empty s.service
    then some (errorf (codes "service name is required"))
    else if needs_method s.kind
    then (if is_empty s.method
        then some (errorf (codes "method is required for stream type '" ++ (s.kind ++ codes "'")))
        else check_colons s)
    else if no_method s.kind
    then check_colons s
    else some (errorf (codes "invalid stream type '" ++ (s.kind ++ codes "'")))

-- The name of a configuration that is normalized already.
unfoldable pub join_parts : StreamConfig → Text
join_parts c =
    let base = c.service ++ colon ∷ c.method in
    if is_empty c.instance_id
    then c.kind ++ colon ∷ base
    else c.kind ++ colon ∷ (base ++ colon ∷ c.instance_id)

unfoldable pub build_stream_name : StreamConfig → Text
unfolding normalize join_parts
build_stream_name cfg = join_parts (normalize cfg)

push_first : ℕ → List Text → List Text
push_first c [] = (c ∷ []) ∷ []
push_first c (p ∷ ps) = (c ∷ p) ∷ ps

-- strings.Split(s, sep)
unfoldable pub split : ℕ → Text → List Text
unfolding push_first
split sep [] = [] ∷ []
split sep (c ∷ s) = let rest = split sep s in if c == sep then [] ∷ rest else push_first c rest

-- The instance is the fourth part; any further part is ignored.
of_parts : Text → List Text → Result StreamConfig
of_parts s (t ∷ v ∷ m ∷ []) =
    ok (normalize (record { kind = t; service = v; method = m; instance_id = [] }))
of_parts s (t ∷ v ∷ m ∷ i ∷ _) =
    ok (normalize (record { kind = t; service = v; method = m; instance_id = i }))
of_parts s _ = err (errorf (codes "invalid stream name format: " ++ s))

unfoldable pub parse_stream_name : Text → Result StreamConfig
unfolding of_parts normalize split
parse_stream_name stream = of_parts stream (split colon stream)
