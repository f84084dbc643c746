-- ===== src/Sdk/Structlog.antt =====
-- packages/chatbot-sdk/chatbot_sdk/structlog_processor.py: application logs through the transport.
pub mod Shipping
use inferspect.Prelude.{
  ℕ, String, Bool, true, false, not, ◌||◌, Option, none, some, List, str_eq, ltb, if◌then◌else◌,
}
use inferspect.Value.{Value, Fields, str, end, field, lookup, without}
use inferspect.Value.Codec.{Codec}
use inferspect.Sdk.Schema.{LogType, ApplicationLog, base_log}
use inferspect.Sdk.Pii.{Patterns, redact_text, redact_dict}
use inferspect.Sdk.Transport.State.{Options, Transport, submit}

-- `str.upper`, `str(v)`, and `_parse_ts`, whose parser is `datetime`'s and whose last resort is the
-- clock.
pub record Surroundings : Type 0 where
  pub upper : String → String
  pub text : Value → String
  pub parse_ts : Option Value → ℕ

pub record Processor : Type 0 where
  pub service : String
  pub min_level : ℕ
  pub pii_redact : Bool
  pub pii_recognizers : Option (List String)

-- `_LEVEL_INTS.get(level, 20)`
abbrev pub level_of : String → ℕ
level_of level =
    if str_eq level "DEBUG"
    then 10
    else if str_eq level "INFO"
    then 20
    else if str_eq level "WARNING" || str_eq level "WARN"
    then 30
    else if str_eq level "ERROR"
    then 40
    else if str_eq level "CRITICAL"
    then 50
    else 20

unfoldable pub level_to_int : Surroundings → String → ℕ
level_to_int env level = level_of (env.upper level)

abbrev pub is_reserved : String → Bool
is_reserved k =
    str_eq k "event" || (str_eq k "level" || (str_eq k "timestamp" || str_eq k "logger"))

-- The comprehension of `attrs`.
abbrev pub attributes_of : Fields → Fields
attributes_of event = without is_reserved event

-- `str(event_dict.get(key, default))`
abbrev pub text_or : Surroundings → String → Option Value → String
text_or env default none = env.text (str default)
text_or env default (some v) = env.text v

module _ (p : Patterns) (env : Surroundings) (proc : Processor) where
  unfoldable pub log_of : String → Fields → ApplicationLog
  log_of level event = record {
    base = base_log LogType.application proc.service;
    ts = env.parse_ts (lookup "timestamp" event);
    level = level;
    logger = text_or env "" (lookup "logger" event);
    trace_id = none;
    span_id = none;
    message =
        let message = text_or env "" (lookup "event" event) in
        if proc.pii_redact then redact_text p proc.pii_recognizers message else message;
    attributes =
        let attrs = attributes_of event in
        if proc.pii_redact then redact_dict p proc.pii_recognizers attrs else attrs;
  }

  abbrev pub level_text : String → Fields → String
  level_text method_name event = env.upper (text_or env method_name (lookup "level" event))

  -- `except Exception: pass`
  abbrev pub or_as_before {ℓ} : {E : Type ℓ} → Transport E → Option (Transport E) → Transport E
  or_as_before t none = t
  or_as_before t (some t') = t'

  -- `__call__`: the event dict that goes on, and the transport. `dump` is `model_dump(mode="json")`,
  -- or its exception.
  unfoldable pub process {ℓ} :
      {E : Type ℓ}
      → (ApplicationLog → Option E)
      → Options
      → String
      → Fields
      → Transport E
      → Fields × Transport E
  process dump o method_name event t =
      let level = level_text method_name event in
      if ltb (level_to_int env level) proc.min_level then (event, t) else (
        event,
        elim (dump (log_of level event)) [ none ↦ t | some e ↦ or_as_before t (submit o e t) ],
      )
