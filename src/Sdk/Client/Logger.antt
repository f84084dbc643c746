-- ===== src/Sdk/Client/Logger.antt =====
-- `InferenceLogger.inference` and `.tool_call`: a span is opened, its methods are called in any
-- order, and whichever way the block is left, a log is submitted.
use inferspect.Prelude.{ℕ, String, Option, none, some, List, [], ◌∷◌}
use inferspect.Value.{Value, Fields}
use inferspect.Value.Codec.{Codec}
use inferspect.Sdk.Schema.{Status, FinishReason, InferenceLog, ToolExecutionLog}
use inferspect.Sdk.Client.Chunk.{Message}
use inferspect.Sdk.Client.Span.{
  Opening, InferenceSpan, Ending, Raised, open_span, observe_chunk, set_response,
  set_output_preview, set_tokens, set_cost, set_finish_reason, set_metadata, finalize,
}
use inferspect.Sdk.Client.Tool.{
  ToolOpening, ToolSpan, open_tool, set_result, set_tool_metadata, finalize_tool,
}
use inferspect.Sdk.Transport.State.{Options, Transport, submit}

-- How the block is left; `interrupted` is `KeyboardInterrupt` or `GeneratorExit`.
pub data Exit : Type 0 where
  returned interrupted : Exit
  cancelled timed_out failed : Raised → Exit

abbrev pub status_of : Exit → Status
status_of returned = Status.ok
status_of interrupted = Status.ok
status_of (cancelled e) = Status.cancelled
status_of (timed_out e) = Status.timeout
status_of (failed e) = Status.error

abbrev pub error_of : Exit → Option Raised
error_of returned = none
error_of interrupted = none
error_of (cancelled e) = some e
error_of (timed_out e) = some e
error_of (failed e) = some e

-- The methods that a block may call on its span.
pub data SpanCall : Type 0 where
  observe : ℕ → Message → SpanCall
  respond : Message → SpanCall
  output : String → SpanCall
  tokens : Option ℕ → Option ℕ → SpanCall
  cost : String → SpanCall
  finish : FinishReason → SpanCall
  meta : Fields → SpanCall

unfoldable pub call_span : Codec → SpanCall → InferenceSpan → InferenceSpan
call_span c (observe elapsed m) s = observe_chunk c elapsed m s
call_span c (respond m) s = set_response c m s
call_span c (output text) s = set_output_preview text s
call_span c (tokens p q) s = set_tokens p q s
call_span c (cost usd) s = set_cost usd s
call_span c (finish reason) s = set_finish_reason reason s
call_span c (meta kwargs) s = set_metadata kwargs s

unfoldable pub call_all : Codec → List SpanCall → InferenceSpan → InferenceSpan
call_all c [] s = s
call_all c (call ∷ calls) s = call_all c calls (call_span c call s)

pub data ToolCallStep : Type 0 where
  result : Value → ToolCallStep
  tool_meta : Fields → ToolCallStep

unfoldable pub call_tool : Codec → (String → ℕ) → List ToolCallStep → ToolSpan → ToolSpan
call_tool c utf8_len [] s = s
call_tool c utf8_len (result v ∷ steps) s = call_tool c utf8_len steps (set_result c utf8_len v s)
call_tool c utf8_len (tool_meta kwargs ∷ steps) s =
    call_tool c utf8_len steps (set_tool_metadata kwargs s)

module _ (c : Codec) (redact : String → String) where
  unfoldable pub inference_log :
      Opening → ℕ → String → Fields → List SpanCall → Exit → Ending → InferenceLog
  inference_log opening started_at input_preview metadata calls exit e =
      finalize redact e (status_of exit) (error_of exit)
        (call_all c calls (open_span opening started_at input_preview metadata))

  unfoldable pub tool_log :
      (String → ℕ)
      → ToolOpening
      → ℕ
      → String
      → Fields
      → List ToolCallStep
      → Exit
      → Ending
      → ToolExecutionLog
  tool_log utf8_len opening started_at args_preview metadata steps exit e =
      finalize_tool redact e (status_of exit) (error_of exit)
        (call_tool c utf8_len steps (open_tool opening started_at args_preview metadata))

-- The `finally` of the block: `dump` is `model_dump(mode="json")`.
abbrev pub submit_log {ℓ κ} :
    {E : Type ℓ} {L : Type κ} → (L → E) → Options → L → Transport E → Option (Transport E)
submit_log dump o log t = submit o (dump log) t
