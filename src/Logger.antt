-- ===== src/Logger.antt =====
-- base/microservice/pkg/common/logger/logger.go and context.go: what a logger writes. A record goes to
-- slog's text handler, which is not modelled, and so are the attributes of a tracing span. The logged
-- values are any type with an embedding of strings.
pub mod Redaction
mod Tests
use caaspay_core.Prelude.{
  ℕ, ◌-◌, Bool, true, false, ◌&&◌, ◌||◌, Option, none, some, Text, codes, List, [], ◌∷◌, ◌++◌, map,
  leb, contains, to_lower, text_eq, is_empty, if◌then◌else◌,
}
use caaspay_core.Prelude.Dict.{Dict, get}
use caaspay_core.Message.{
  Context, ctx_key_message_id, ctx_key_stream, ctx_key_rstream, ctx_key_trace_id, ctx_key_span_id,
  ctx_key_user_id, ctx_key_ip, ctx_key_locale, ctx_key_source,
}

-- slog's levels.
pub data Level : Type 0 where
  level_debug : Level
  level_info : Level
  level_warn : Level
  level_error : Level

-- slog's number of a level, plus 4.
abbrev pub severity : Level → ℕ
severity level_debug = 0
severity level_info = 4
severity level_warn = 8
severity level_error = 12

-- `signalled` says whether the channel of the fatal signal, of capacity one, holds a signal.
pub record Logger : Type 0 where
  pub log_level : Level
  pub redact : Bool
  pub service_name : Text
  pub signalled : Bool

-- strings.ToUpper on ASCII text.
abbrev pub to_upper : Text → Text
to_upper s = map (λ c. if leb b'a' c && leb c b'z' then c - 32 else c) s

abbrev pub level_map : Dict Level
level_map =
    (codes "DEBUG", level_debug)
    ∷ (codes "INFO", level_info)
    ∷ (codes "WARN", level_warn)
    ∷ (codes "ERROR", level_error)
    ∷ []

abbrev pub level_or_info : Option Level → Level
level_or_info none = level_info
level_or_info (some l) = l

unfoldable pub new_logger : (service_name level : Text) → (redact : Bool) → Logger
new_logger service_name level redact = record {
  log_level = level_or_info (get (to_upper level) level_map);
  redact = redact;
  service_name = service_name;
  signalled = false;
}

abbrev pub sensitive : List Text
sensitive = codes "password" ∷ codes "secret" ∷ codes "token" ∷ codes "apikey" ∷ []

abbrev pub contains_one : Text → List Text → Bool
contains_one key [] = false
contains_one key (s ∷ ss) = contains key s || contains_one key ss

unfoldable pub is_sensitive_key : Text → Bool
is_sensitive_key key = contains_one (to_lower key) sensitive

-- The keys that the handler looks up, in its order.
abbrev pub context_keys : List Text
context_keys =
    ctx_key_message_id ∷ ctx_key_stream ∷ ctx_key_rstream ∷ ctx_key_trace_id ∷ ctx_key_span_id
    ∷ ctx_key_user_id ∷ ctx_key_ip ∷ ctx_key_locale ∷ ctx_key_source ∷ []

-- A record as the text handler gets it.
pub record Written (V : Type 0) : Type 0 where
  pub level : Level
  pub message : Text
  pub attrs : List (Text × V)

module _ {V : Type 0} (text : Text → V) where
  unfoldable pub redact_sensitive_data : Dict V → Dict V
  redact_sensitive_data [] = []
  redact_sensitive_data ((k, v) ∷ fields) =
      let rest = redact_sensitive_data fields in
      (k, if is_sensitive_key k then text (codes "[REDACTED]") else v) ∷ rest

  -- The arguments, each key with its value; a nil map has none.
  unfoldable pub map_to_args : (redact : Bool) → Option (Dict V) → List (Text × V)
  unfolding redact_sensitive_data
  map_to_args redact none = []
  map_to_args redact (some fields) = if redact then redact_sensitive_data fields else fields

  abbrev pub context_attr : Text → Option Text → List (Text × V)
  context_attr key none = []
  context_attr key (some v) = (key, text v) ∷ []

  unfoldable pub context_attrs : Context → List Text → List (Text × V)
  context_attrs ctx [] = []
  context_attrs ctx (key ∷ keys) = context_attr key (get key ctx) ++ context_attrs ctx keys

  -- What `Handle` adds to a record; `now` is the time in RFC 3339.
  unfoldable pub handled : (service_name now : Text) → Context → Written V → Written V
  unfolding context_attrs
  handled service_name now ctx r = record r {
    attrs =
        r.attrs
        ++ ((codes "service", text service_name)
            ∷ (codes "timestamp", text now)
            ∷ context_attrs ctx context_keys);
  }

  -- A call of the logger at a level: what is written, which is nothing below the logger's level.
  unfoldable pub log_at :
      Logger
      → Level
      → (now : Text) → Context
      → (message : Text) → Option (Dict V)
      → List (Written V)
  unfolding map_to_args handled
  log_at l level now ctx message fields =
      if leb (severity l.log_level) (severity level)
      then handled l.service_name now ctx
          (record { level = level; message = message; attrs = map_to_args l.redact fields })
        ∷ []
      else []

  -- `Fatal` writes a text of its own, whatever message it is given, and signals once.
  unfoldable pub fatal :
      Logger
      → (now : Text) → Context
      → (message : Text) → Option (Dict V)
      → List (Written V) × Logger
  unfolding log_at
  fatal l now ctx message fields = (
    log_at l level_error now ctx (codes "🛑 FATAL: triggering graceful shutdown") fields,
    record l { signalled = true },
  )
