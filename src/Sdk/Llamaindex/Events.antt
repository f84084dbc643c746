-- ===== src/Sdk/Llamaindex/Events.antt =====
-- The events of `LlamaIndexCallback`, each with the logs that it submits.
use inferspect.Prelude.{ℕ, String, false, Option, none, some, List, [], ◌∷◌, ◌++◌}
use inferspect.Prelude.Tables.{find, put, remove}
use inferspect.Value.{Value, str, end}
use inferspect.Value.Codec.{Codec}
use inferspect.Sdk.Schema.{InferenceLog}
use inferspect.Sdk.Client.Context.{Ids, current_ctx_kwargs}
use inferspect.Sdk.Client.Span.{Opening, InferenceSpan, Ending, open_span, set_response, finalize}
use inferspect.Sdk.Client.Tool.{ToolSpan, ToolOpening, open_tool, set_result, finalize_tool}
use inferspect.Sdk.Client.Logger.{returned, status_of, error_of}
use inferspect.Sdk.Langchain.{SdkLog, of_inference, of_tool}
use inferspect.Sdk.Llamaindex.{
  Payload, provider_for, model_from_payload, input_preview, normalize_llm_response,
  tool_name_from_payload, tool_args_preview, or_unknown, or_else,
}

-- What the module takes from Python and the SDK.
pub record Handler : Type 0 where
  pub codec : Codec
  pub lower : String → String
  pub utf8_len : String → ℕ
  pub redact : String → String
  pub service : String

-- The state of a `LlamaIndexCallback`.
pub record LlamaIndexCallback : Type 0 where
  pub inference_spans : List (String × InferenceSpan)
  pub tool_spans : List (String × ToolSpan)
  pub last_inference_request_id : Option String

pub data CbEventType : Type 0 where
  llm function_call other : CbEventType

-- The context, the ids of a new span and its clock.
pub record Stamp : Type 0 where
  pub active : Option Ids
  pub request_id : String
  pub tool_call_id : String
  pub started_at : ℕ

pub data Event : Type 0 where
  event_start : CbEventType → Payload → String → Stamp → Event
  event_end : CbEventType → Payload → String → Ending → Event

module _ (h : Handler) where
  abbrev pub opening_of : Payload → Stamp → Opening
  opening_of p st =
      let model = model_from_payload h.codec p in
      let ids = current_ctx_kwargs st.active in
      record {
        service = h.service;
        request_id = st.request_id;
        conversation_id = ids.conversation_id;
        session_id = ids.session_id;
        user_id = ids.user_id;
        provider = provider_for h.lower model;
        model = or_unknown model;
        stream = false;
      }

  abbrev pub new_span : Payload → Stamp → InferenceSpan
  new_span p st = open_span (opening_of p st) st.started_at (input_preview h.codec p) end

  unfoldable pub open_inference : String → Payload → Stamp → LlamaIndexCallback → LlamaIndexCallback
  open_inference id p st s = record s { inference_spans = put id (new_span p st) s.inference_spans }

  abbrev pub closed_log : Payload → Ending → InferenceSpan → InferenceLog
  closed_log p e span =
      finalize h.redact e (status_of returned) (error_of returned)
        (set_response h.codec (normalize_llm_response h.codec p) span)

  abbrev pub close_found :
      String
      → Payload
      → Ending
      → Option InferenceSpan
      → LlamaIndexCallback
      → LlamaIndexCallback × List SdkLog
  close_found id p e none s = (s, [])
  close_found id p e (some span) s = (
    record s {
      inference_spans = remove id s.inference_spans;
      last_inference_request_id = some span.opening.request_id;
    },
    of_inference (closed_log p e span) ∷ [],
  )

  unfoldable pub close_inference :
      String → Payload → Ending → LlamaIndexCallback → LlamaIndexCallback × List SdkLog
  close_inference id p e s = close_found id p e (find id s.inference_spans) s

  abbrev tool_opening : Payload → Stamp → Option String → ToolOpening
  tool_opening p st parent =
      let ids = current_ctx_kwargs st.active in
      record {
        service = h.service;
        request_id = st.request_id;
        tool_call_id = st.tool_call_id;
        parent_inference_request_id = parent;
        conversation_id = ids.conversation_id;
        session_id = ids.session_id;
        user_id = ids.user_id;
        tool_name = tool_name_from_payload h.codec p;
      }

  unfoldable pub open_tool_call : String → Payload → Stamp → LlamaIndexCallback → LlamaIndexCallback
  open_tool_call id p st s =
      let opening = tool_opening p st s.last_inference_request_id in
      record s {
        tool_spans =
            put id (open_tool opening st.started_at (tool_args_preview h.codec p) end) s.tool_spans;
      }

  abbrev pub tool_result : Payload → Value
  tool_result p = or_else p.function_call_response (or_else p.response_value (str ""))

  abbrev pub close_tool_found :
      String
      → Payload
      → Ending
      → Option ToolSpan
      → LlamaIndexCallback
      → LlamaIndexCallback × List SdkLog
  close_tool_found id p e none s = (s, [])
  close_tool_found id p e (some span) s = (
    record s { tool_spans = remove id s.tool_spans },
    of_tool (
          finalize_tool h.redact e (status_of returned) (error_of returned)
            (set_result h.codec h.utf8_len (tool_result p) span))
        ∷ [],
  )

  unfoldable pub close_tool_call :
      String → Payload → Ending → LlamaIndexCallback → LlamaIndexCallback × List SdkLog
  close_tool_call id p e s = close_tool_found id p e (find id s.tool_spans) s

  -- `on_event_start` and `on_event_end`
  unfoldable pub on_event : Event → LlamaIndexCallback → LlamaIndexCallback × List SdkLog
  unfolding open_inference close_inference open_tool_call close_tool_call
  on_event (event_start llm p id st) s = (open_inference id p st s, [])
  on_event (event_start function_call p id st) s = (open_tool_call id p st s, [])
  on_event (event_start other p id st) s = (s, [])
  on_event (event_end llm p id e) s = close_inference id p e s
  on_event (event_end function_call p id e) s = close_tool_call id p e s
  on_event (event_end other p id e) s = (s, [])

  unfoldable pub on_events : List Event → LlamaIndexCallback → LlamaIndexCallback × List SdkLog
  unfolding on_event
  on_events [] s = (s, [])
  on_events (ev ∷ evs) s =
      let (s1, logs) = on_event ev s in let (s2, more) = on_events evs s1 in (s2, logs ++ more)
