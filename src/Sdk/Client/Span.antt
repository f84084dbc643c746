-- ===== src/Sdk/Client/Span.antt =====
-- `InferenceSpan`.
use inferspect.Prelude.{
  ℕ, zero, suc, ◌+◌, String, Bool, true, false, not, ◌&&◌, ◌||◌, Option, none, some, List, [], ◌∷◌,
  ◌++◌, map, length, str_eq, str_take, str_join, if◌then◌else◌,
}
use inferspect.Value.{update, Value, Fields, float, obj, end, insert, get}
use inferspect.Value.Codec.{Codec}
use inferspect.Sdk.Schema.{LogType, Status, FinishReason, ToolCallSummary, InferenceLog, base_log}
use inferspect.Sdk.Client.{truncate, ms_between}
use inferspect.Sdk.Client.Chunk.{Usage, ToolCall, Message, chunk_text}

-- What a span is opened with.
pub record Opening : Type 0 where
  pub service : String
  pub request_id : String
  pub conversation_id : Option String
  pub session_id : Option String
  pub user_id : Option String
  pub provider : String
  pub model : String
  pub stream : Bool

pub record InferenceSpan : Type 0 where
  pub opening : Opening
  pub started_at : ℕ
  pub input_preview : String
  pub metadata : Fields
  pub ttft_ms : Option ℕ
  pub output_chunks : List String
  pub prompt_tokens : ℕ
  pub completion_tokens : ℕ
  pub cost_usd : String
  pub finish_reason : Option FinishReason
  pub tool_calls : List ToolCallSummary

unfoldable pub open_span : Opening → ℕ → String → Fields → InferenceSpan
open_span opening started_at input_preview metadata = record {
  opening = opening;
  started_at = started_at;
  input_preview = truncate input_preview;
  metadata = metadata;
  ttft_ms = none;
  output_chunks = [];
  prompt_tokens = 0;
  completion_tokens = 0;
  cost_usd = "0.0";
  finish_reason = none;
  tool_calls = [];
}

-- `int(meta.get(key, old) or old)`
abbrev pub count_or : Option ℕ → ℕ → ℕ
count_or none old = old
count_or (some zero) old = old
count_or (some (suc n)) old = suc n

abbrev pub with_usage : Option Usage → InferenceSpan → InferenceSpan
with_usage none s = s
with_usage (some u) s = record s {
  prompt_tokens = count_or u.input_tokens s.prompt_tokens;
  completion_tokens = count_or u.output_tokens s.completion_tokens;
}

-- `if text: self._output_chunks.append(text)`
abbrev pub with_text : String → InferenceSpan → InferenceSpan
with_text text s =
    if str_eq text "" then s else record s { output_chunks = s.output_chunks ++ text ∷ [] }

abbrev pub first_of : Option ℕ → ℕ → Option ℕ
first_of none elapsed = some elapsed
first_of (some t) elapsed = some t

abbrev pub name_or_empty : Option String → String
name_or_empty none = ""
name_or_empty (some name) = name

abbrev pub has_name : String → List ToolCallSummary → Bool
has_name name [] = false
has_name name (t ∷ ts) = str_eq t.name name || has_name name ts

-- `str(tc.get("args", ""))` and `json.dumps(tc.get("args", {}), default=str)`
abbrev pub args_text : Codec → Option Value → String
args_text c none = ""
args_text c (some v) = c.text v

abbrev args_json : Codec → Option Value → String
args_json c none = c.dumps (obj end)
args_json c (some v) = c.dumps v

unfoldable pub add_tool_chunks : Codec → List ToolCall → List ToolCallSummary → List ToolCallSummary
add_tool_chunks c [] known = known
add_tool_chunks c (tc ∷ tcs) known =
    let name = name_or_empty tc.name in
    add_tool_chunks c tcs (
      if not (str_eq name "") && not (has_name name known)
      then known ++ record { name = name; args_preview = truncate (args_text c tc.args) } ∷ []
      else known)

-- `elapsed` is the time since the start, in milliseconds.
unfoldable pub observe_chunk : Codec → ℕ → Message → InferenceSpan → InferenceSpan
observe_chunk c elapsed m s =
    let s1 = record s { ttft_ms = first_of s.ttft_ms elapsed } in
    let s2 = with_usage m.usage (with_text (chunk_text c m.body) s1) in
    record s2 { tool_calls = add_tool_chunks c m.calls s2.tool_calls }

unfoldable pub set_response : Codec → Message → InferenceSpan → InferenceSpan
set_response c m s =
    let s1 = with_usage m.usage (with_text (chunk_text c m.body) s) in
    record s1 {
      tool_calls =
          s1.tool_calls
          ++ map
              (λ tc. record {
                name = name_or_empty tc.name;
                args_preview = truncate (args_json c tc.args);
              })
              m.calls;
    }

abbrev pub set_output_preview : String → InferenceSpan → InferenceSpan
set_output_preview text s = record s { output_chunks = text ∷ [] }

abbrev pub given : Option ℕ → ℕ → ℕ
given none old = old
given (some n) old = n

abbrev pub set_tokens : Option ℕ → Option ℕ → InferenceSpan → InferenceSpan
set_tokens prompt completion s = record s {
  prompt_tokens = given prompt s.prompt_tokens;
  completion_tokens = given completion s.completion_tokens;
}

abbrev pub set_cost : String → InferenceSpan → InferenceSpan
set_cost usd s = record s { cost_usd = usd }

abbrev pub set_finish_reason : FinishReason → InferenceSpan → InferenceSpan
set_finish_reason reason s = record s { finish_reason = some reason }

abbrev pub set_metadata : Fields → InferenceSpan → InferenceSpan
set_metadata kwargs s = record s { metadata = update kwargs s.metadata }

-- The clock at the end of a span: the time, and the two durations as they are rounded, the second
-- with the value of `sdk_pre_call_ms` added.
pub record Ending : Type 0 where
  pub finished_at : ℕ
  pub finalize_ms : String
  pub overhead_ms : Value → String

-- The exception that left a span: the name of its type and its text.
pub record Raised : Type 0 where
  pub type_name : String
  pub message : String

abbrev pub default_reason : Bool → Status → FinishReason
default_reason true status = FinishReason.tool_calls
default_reason false Status.cancelled = FinishReason.cancelled
default_reason false Status.error = FinishReason.error
default_reason false _ = FinishReason.stop

abbrev pub has_tools : List ToolCallSummary → Bool
has_tools [] = false
has_tools (t ∷ ts) = true

abbrev pub reason_of : Option FinishReason → FinishReason → FinishReason
reason_of none d = d
reason_of (some r) d = r

abbrev pub code_of : Option Raised → Option String
code_of none = none
code_of (some e) = some e.type_name

abbrev pub message_of : Option Raised → Option String
message_of none = none
message_of (some e) = some (str_take 500 e.message)

abbrev pub stamp_timing : Ending → Fields → Fields
stamp_timing e metadata =
    insert "sdk_overhead_ms" (float (e.overhead_ms (get "sdk_pre_call_ms" metadata)))
      (insert "sdk_finalize_ms" (float e.finalize_ms) metadata)

-- `redact` is the identity where the logger does not redact.
unfoldable pub finalize :
    (String → String) → Ending → Status → Option Raised → InferenceSpan → InferenceLog
finalize redact e status error s = record {
  base = base_log LogType.inference s.opening.service;
  request_id = s.opening.request_id;
  conversation_id = s.opening.conversation_id;
  session_id = s.opening.session_id;
  user_id = s.opening.user_id;
  provider = s.opening.provider;
  model = s.opening.model;
  stream = s.opening.stream;
  started_at = s.started_at;
  finished_at = e.finished_at;
  latency_ms = ms_between s.started_at e.finished_at;
  ttft_ms = s.ttft_ms;
  prompt_tokens = s.prompt_tokens;
  completion_tokens = s.completion_tokens;
  total_tokens = s.prompt_tokens + s.completion_tokens;
  cost_usd = s.cost_usd;
  status = status;
  finish_reason = some (reason_of s.finish_reason (default_reason (has_tools s.tool_calls) status));
  tool_calls_count = length s.tool_calls;
  tool_calls_summary = s.tool_calls;
  error_code = code_of error;
  error_message = message_of error;
  input_preview = redact s.input_preview;
  output_preview = redact (truncate (str_join s.output_chunks));
  metadata = stamp_timing e s.metadata;
  fingerprint = "";
}
