-- ===== src/Ingestion/Validation.antt =====
-- apps/ingestion-service/ingestion_service/services/validation_service.py
use inferspect.Prelude.{String, Option, none, some, str_eq, if◌then◌else◌}
use inferspect.Value.{Value, Fields, str, obj, lookup, get}
use inferspect.Sdk.Schema.{LogType, log_type_of}

-- A validated model: `uuid` is `str(log.request_id)` where its class has that field, and `dump` is
-- `log.model_dump(mode="json")`.
pub record Log : Type 0 where
  pub log_type : LogType
  pub uuid : String
  pub dump : Fields

-- What pydantic answers: the `loc` and `msg` of its first error, or a model.
pub data Validation : Type 0 where
  invalid : String → String → Validation
  valid : String → Fields → Validation

-- The `ValueError`s of `parse`.
pub data Rejection : Type 0 where
  not_an_object : Rejection
  unknown_log_type : Value → Rejection
  fails_validation : LogType → String → String → Rejection

pub data Parsed : Type 0 where
  rejected : Rejection → Parsed
  parsed : Log → Parsed

abbrev version_of : Fields → Value
version_of event = elim (lookup "schema_version" event) [ none ↦ str "1.0" | some v ↦ v ]

-- Every version is accepted as it is.
abbrev migrate : Fields → Fields
migrate event = elim (version_of event) [
  | str v ↦ if str_eq v "1.0" then event else event
  | _ ↦ event
]

abbrev parsed_as : LogType → Validation → Parsed
parsed_as t (invalid loc msg) = rejected (fails_validation t loc msg)
parsed_as t (valid uuid dump) = parsed (record { log_type = t; uuid = uuid; dump = dump })

abbrev parse_as : (LogType → Fields → Validation) → Fields → Option LogType → Parsed
parse_as validate raw none = rejected (unknown_log_type (get "log_type" raw))
parse_as validate raw (some t) = parsed_as t (validate t (migrate raw))

-- `validate` is pydantic's `model_validate` of the class for a log type.
unfoldable pub parse : (LogType → Fields → Validation) → Value → Parsed
parse validate (obj raw) = parse_as validate raw (log_type_of (get "log_type" raw))
parse validate _ = rejected not_an_object
