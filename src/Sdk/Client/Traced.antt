-- ===== src/Sdk/Client/Traced.antt =====
-- `tool_traced`: a decorated tool function, and the log of each of its calls.
use inferspect.Prelude.{
  ℕ, ◌≡◌, refl, sym, String, Option, none, some, List, [], ◌∷◌, str_eq, if◌then◌else◌,
}
use inferspect.Value.{Value, Items, Fields, obj, arr, end, field}
use inferspect.Value.Codec.{Codec}
use inferspect.Sdk.Schema.{ToolExecutionLog}
use inferspect.Sdk.Client.{truncate}
use inferspect.Sdk.Client.Span.{Ending}
use inferspect.Sdk.Client.Tool.{ToolOpening, open_tool, set_result, finalize_tool, result_text}
use inferspect.Sdk.Client.Logger.{
  Exit, returned, status_of, ToolCallStep, result, call_tool, tool_log,
}

-- What the decorated function does with its arguments.
pub data Outcome : Type 0 where
  returns : Value → Outcome
  raises : Exit → Outcome

-- The decorator's arguments and the function's name.
pub record Decorated : Type 0 where
  pub name : Option String
  pub fn_name : String
  pub conversation_id_arg : Option String

abbrev pub tool_name_of : Decorated → String
tool_name_of d = elim d.name [
  | none ↦ d.fn_name
  | some name ↦ if str_eq name "" then d.fn_name else name
]

-- The keyword argument that names the conversation, if it is a UUID, which `uuids` gives as text.
abbrev pub conversation_of : (String → Option String) → Decorated → Option String
conversation_of uuids d = elim d.conversation_id_arg [
  | none ↦ none
  | some key ↦ if str_eq key "" then none else uuids key
]

-- What a call is given: its arguments, and the ids and the time of the new span.
pub record TracedCall : Type 0 where
  pub args : Items
  pub kwargs : Fields
  pub uuids : String → Option String
  pub service : String
  pub request_id : String
  pub tool_call_id : String
  pub started_at : ℕ

abbrev pub args_value : TracedCall → Value
args_value call = obj (field "args" (arr call.args) (field "kwargs" (obj call.kwargs) end))

abbrev pub traced_opening : Decorated → TracedCall → ToolOpening
traced_opening d call = record {
  service = call.service;
  request_id = call.request_id;
  tool_call_id = call.tool_call_id;
  parent_inference_request_id = none;
  conversation_id = conversation_of call.uuids d;
  session_id = none;
  user_id = none;
  tool_name = tool_name_of d;
}

abbrev pub steps_of : Outcome → List ToolCallStep × Exit
steps_of (returns v) = (result v ∷ [], returned)
steps_of (raises e) = ([], e)

-- The wrapper: what the caller gets, and the log that is submitted.
unfoldable pub traced_call :
    Codec
    → (String → String)
    → (String → ℕ)
    → Decorated
    → TracedCall
    → Outcome
    → Ending
    → Outcome × ToolExecutionLog
traced_call c redact utf8_len d call outcome e =
    let (steps, exit) = steps_of outcome in
    (
      outcome,
      tool_log c redact utf8_len (traced_opening d call) call.started_at
          (truncate (c.dumps (args_value call))) end steps exit e,
    )

-- The preview that is logged of a result; nothing is, where the function raises.
abbrev pub result_of : Codec → Outcome → String
result_of c (returns v) = result_text c v
result_of c (raises e) = ""

-- A call of a traced tool gives the caller what the function gives, a value or an exception, and
-- submits one log, which has the truncated result, redacted, the number of its bytes, and the status
-- of how the function ended.
pub traced_call_lem :
    (c : Codec) (redact : String → String) (utf8_len : String → ℕ) (d : Decorated)
    (call : TracedCall) (outcome : Outcome) (e : Ending)
    → utf8_len "" ≡ 0
    → let (seen, log) = traced_call c redact utf8_len d call outcome e in
      (seen ≡ outcome)
      × (log.result_preview ≡ redact (truncate (result_of c outcome)))
      × (log.result_size_bytes ≡ utf8_len (result_of c outcome))
      × (log.status ≡ status_of (steps_of outcome).1)
unfolding traced_call tool_log call_tool open_tool set_result finalize_tool truncate
traced_call_lem c redact utf8_len d call (returns v) e zero_len = (refl, refl, refl, refl)
traced_call_lem c redact utf8_len d call (raises exit) e zero_len = (refl, refl, sym zero_len, refl)
