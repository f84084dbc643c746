-- ===== src/Sdk/Client/Tool.antt =====
-- `ToolSpan`.
use inferspect.Prelude.{ℕ, String, Option}
use inferspect.Value.{update, Value, Fields, str}
use inferspect.Value.Codec.{Codec}
use inferspect.Sdk.Schema.{LogType, Status, ToolExecutionLog, base_log}
use inferspect.Sdk.Client.{truncate, ms_between}
use inferspect.Sdk.Client.Span.{Ending, Raised, code_of, message_of}

pub record ToolOpening : Type 0 where
  pub service : String
  pub request_id : String
  pub tool_call_id : String
  pub parent_inference_request_id : Option String
  pub conversation_id : Option String
  pub session_id : Option String
  pub user_id : Option String
  pub tool_name : String

pub record ToolSpan : Type 0 where
  pub opening : ToolOpening
  pub started_at : ℕ
  pub args_preview : String
  pub metadata : Fields
  pub result_preview : String
  pub result_size_bytes : ℕ

unfoldable pub open_tool : ToolOpening → ℕ → String → Fields → ToolSpan
open_tool opening started_at args_preview metadata = record {
  opening = opening;
  started_at = started_at;
  args_preview = truncate args_preview;
  metadata = metadata;
  result_preview = "";
  result_size_bytes = 0;
}

abbrev pub result_text : Codec → Value → String
result_text c (str s) = s
result_text c v = c.dumps v

-- `utf8_len` is `len(text.encode("utf-8"))`, which is 0 for the empty text.
unfoldable pub set_result : Codec → (String → ℕ) → Value → ToolSpan → ToolSpan
set_result c utf8_len result s =
    let text = result_text c result in
    record s { result_preview = truncate text; result_size_bytes = utf8_len text }

abbrev pub set_tool_metadata : Fields → ToolSpan → ToolSpan
set_tool_metadata kwargs s = record s { metadata = update kwargs s.metadata }

unfoldable pub finalize_tool :
    (String → String) → Ending → Status → Option Raised → ToolSpan → ToolExecutionLog
finalize_tool redact e status error s = record {
  base = base_log LogType.tool_execution s.opening.service;
  request_id = s.opening.request_id;
  tool_call_id = s.opening.tool_call_id;
  parent_inference_request_id = s.opening.parent_inference_request_id;
  conversation_id = s.opening.conversation_id;
  session_id = s.opening.session_id;
  user_id = s.opening.user_id;
  tool_name = s.opening.tool_name;
  started_at = s.started_at;
  finished_at = e.finished_at;
  latency_ms = ms_between s.started_at e.finished_at;
  status = status;
  error_code = code_of error;
  error_message = message_of error;
  args_preview = redact s.args_preview;
  result_preview = redact s.result_preview;
  result_size_bytes = s.result_size_bytes;
  metadata = s.metadata;
}
