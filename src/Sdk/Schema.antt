-- ===== src/Sdk/Schema.antt =====
-- packages/chatbot-sdk/chatbot_sdk/schema.py: the enumerations and records that the SDK and the
-- ingestion service share. UUIDs and floats stand as texts, datetimes as
-- milliseconds.
use inferspect.Prelude.{ℕ, String, Bool, Option, none, some, List, str_eq, if◌then◌else◌}
use inferspect.Value.{Value, Fields, str}

pub data LogType : Type 0 where
  inference tool_execution application : LogType

pub data Status : Type 0 where
  ok error cancelled timeout : Status

pub data FinishReason : Type 0 where
  stop tool_calls length content_filter error cancelled : FinishReason

-- The values of the string enumeration.
abbrev pub log_type_text : LogType → String
log_type_text LogType.inference = "inference"
log_type_text LogType.tool_execution = "tool_execution"
log_type_text LogType.application = "application"

abbrev log_type_of_text : String → Option LogType
log_type_of_text s =
    if str_eq s "inference"
    then some LogType.inference
    else if str_eq s "tool_execution"
    then some LogType.tool_execution
    else if str_eq s "application"
    then some LogType.application
    else none

-- `LogType(v)`; `none` is its `ValueError`.
unfoldable pub log_type_of : Value → Option LogType
log_type_of (str s) = log_type_of_text s
log_type_of _ = none

pub record ToolCallSummary : Type 0 where
  pub name : String
  pub args_preview : String

pub data Source : Type 0 where
  sdk ebpf_agent : Source

-- `_BaseLog`, with the tag `client` that each of its subclasses adds.
pub record BaseLog : Type 0 where
  pub schema_version : String
  pub log_type : LogType
  pub service : String
  pub sdk_version : Option String
  pub source : Source
  pub host_id : Option String
  pub process_id : Option ℕ
  pub container_id : Option String
  pub client : String

-- The fields that the SDK leaves at their defaults.
abbrev pub base_log : LogType → String → BaseLog
base_log t service = record {
  schema_version = "1.0";
  log_type = t;
  service = service;
  sdk_version = none;
  source = Source.sdk;
  host_id = none;
  process_id = none;
  container_id = none;
  client = "";
}

pub record InferenceLog : Type 0 where
  pub base : BaseLog
  pub request_id : String
  pub conversation_id : Option String
  pub session_id : Option String
  pub user_id : Option String
  pub provider : String
  pub model : String
  pub stream : Bool
  pub started_at : ℕ
  pub finished_at : ℕ
  pub latency_ms : ℕ
  pub ttft_ms : Option ℕ
  pub prompt_tokens : ℕ
  pub completion_tokens : ℕ
  pub total_tokens : ℕ
  pub cost_usd : String
  pub status : Status
  pub finish_reason : Option FinishReason
  pub tool_calls_count : ℕ
  pub tool_calls_summary : List ToolCallSummary
  pub error_code : Option String
  pub error_message : Option String
  pub input_preview : String
  pub output_preview : String
  pub metadata : Fields
  pub fingerprint : String

pub record ToolExecutionLog : Type 0 where
  pub base : BaseLog
  pub request_id : String
  pub tool_call_id : String
  pub parent_inference_request_id : Option String
  pub conversation_id : Option String
  pub session_id : Option String
  pub user_id : Option String
  pub tool_name : String
  pub started_at : ℕ
  pub finished_at : ℕ
  pub latency_ms : ℕ
  pub status : Status
  pub error_code : Option String
  pub error_message : Option String
  pub args_preview : String
  pub result_preview : String
  pub result_size_bytes : ℕ
  pub metadata : Fields

pub record ApplicationLog : Type 0 where
  pub base : BaseLog
  pub ts : ℕ
  pub level : String
  pub logger : String
  pub trace_id : Option String
  pub span_id : Option String
  pub message : String
  pub attributes : Fields

-- One event of an envelope.
pub data LogModel : Type 0 where
  inference_log : InferenceLog → LogModel
  tool_log : ToolExecutionLog → LogModel
  application_log : ApplicationLog → LogModel

pub record LogEnvelope : Type 0 where
  pub service : String
  pub sdk_version : String
  pub events : List LogModel
