-- ===== src/Consumer/Columns.antt =====
-- The columns of the three tables, and the sets of columns that `_coerce` names.
use inferspect.Prelude.{String, Bool, false, ◌||◌, List, [], ◌∷◌, str_eq}

-- `col in {…}`
abbrev pub is_in : String → List String → Bool
is_in col [] = false
is_in col (c ∷ cs) = str_eq col c || is_in col cs

abbrev pub inference_columns : List String
inference_columns =
    "request_id" ∷ "conversation_id" ∷ "session_id" ∷ "user_id" ∷ "service" ∷ "provider" ∷ "model"
    ∷ "started_at" ∷ "finished_at" ∷ "received_at" ∷ "latency_ms" ∷ "ttft_ms" ∷ "stream"
    ∷ "prompt_tokens" ∷ "completion_tokens" ∷ "total_tokens" ∷ "cost_usd" ∷ "status"
    ∷ "finish_reason" ∷ "tool_calls_count" ∷ "tool_calls_summary" ∷ "error_code" ∷ "error_message"
    ∷ "input_preview" ∷ "output_preview" ∷ "metadata" ∷ "client" ∷ "source" ∷ "host_id"
    ∷ "process_id" ∷ "container_id" ∷ "fingerprint" ∷ []

abbrev pub tool_execution_columns : List String
tool_execution_columns =
    "request_id" ∷ "tool_call_id" ∷ "parent_inference_request_id" ∷ "conversation_id" ∷ "session_id"
    ∷ "user_id" ∷ "service" ∷ "tool_name" ∷ "started_at" ∷ "finished_at" ∷ "received_at"
    ∷ "latency_ms" ∷ "status" ∷ "error_code" ∷ "error_message" ∷ "args_preview" ∷ "result_preview"
    ∷ "result_size_bytes" ∷ "metadata" ∷ "client" ∷ "source" ∷ "host_id" ∷ "process_id"
    ∷ "container_id" ∷ []

abbrev pub application_columns : List String
application_columns =
    "ts" ∷ "received_at" ∷ "level" ∷ "service" ∷ "logger" ∷ "trace_id" ∷ "span_id" ∷ "message"
    ∷ "attributes" ∷ "client" ∷ "source" ∷ "host_id" ∷ "process_id" ∷ "container_id" ∷ []

abbrev pub json_columns : List String
json_columns = "metadata" ∷ "tool_calls_summary" ∷ []

abbrev pub nullable_columns : List String
nullable_columns =
    "conversation_id" ∷ "session_id" ∷ "user_id" ∷ "ttft_ms" ∷ "error_code" ∷ "error_message"
    ∷ "trace_id" ∷ "span_id" ∷ "parent_inference_request_id" ∷ []

abbrev pub origin_columns : List String
origin_columns = "source" ∷ "host_id" ∷ "container_id" ∷ "fingerprint" ∷ []
