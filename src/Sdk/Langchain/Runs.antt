-- ===== src/Sdk/Langchain/Runs.antt =====
-- The callbacks of `SDKCallback`, each with the logs that it submits.
pub mod Kept
pub mod Interleaved
use inferspect.Prelude.{
  ℕ, String, true, Option, none, some, List, [], ◌∷◌, ◌++◌, str_eq, if◌then◌else◌,
}
use inferspect.Prelude.Tables.{find, put, remove}
use inferspect.Value.{Value, Fields, str, end, field, truthy, get}
use inferspect.Value.Codec.{Codec}
use inferspect.Sdk.Client.Chunk.{object, whole, nothing, Message, ToolCall}
use inferspect.Sdk.Client.Span.{
  Opening, InferenceSpan, Ending, open_span, observe_chunk, set_response, finalize,
}
use inferspect.Sdk.Client.Tool.{ToolOpening, ToolSpan, open_tool, set_result, finalize_tool}
use inferspect.Sdk.Client.Logger.{Exit, returned, status_of, error_of, call_all}
use inferspect.Sdk.Client.Responses.{final_calls}
use inferspect.Sdk.Langchain.{
  Handler, Entry, Generation, Start, SdkCallback, SdkLog, of_inference, of_tool, model_from,
  provider_of, or_unknown, ids_for, last_human_text, final_ai_message, dict_or_empty, last_of,
}

pub data Callback : Type 0 where
  chat_model_start : Start → List Entry → Callback
  llm_start : Start → List String → Callback
  llm_new_token : String → String → Option Message → ℕ → Callback
  llm_end : String → List (List Generation) → Ending → Callback
  llm_error : String → Exit → Ending → Callback
  tool_start : Start → String → String → Option Fields → Callback
  tool_end : String → Value → Ending → Callback
  tool_error : String → Exit → Ending → Callback

abbrev run_metadata : String → Fields
run_metadata run_id = field "langgraph_run_id" (str run_id) end

-- `prompts[-1] if prompts else ""`
abbrev last_prompt : List String → String
last_prompt prompts = elim (last_of prompts) [ none ↦ "" | some p ↦ p ]

-- The object that stands for a token without a chunk.
abbrev token_message : String → Message
token_message token = record { body = object (whole token) none nothing; usage = none; calls = [] }

-- What a callback about a token observes.
abbrev pub token_chunk : String → Option Message → Option Message
token_chunk token none = if str_eq token "" then none else some (token_message token)
token_chunk token (some chunk) = some chunk

abbrev calls_of : Option Message → List ToolCall
calls_of none = []
calls_of (some m) = m.calls

-- `(serialized or {}).get("name") or "unknown_tool"`
abbrev tool_name_of : Codec → Value → String
tool_name_of c (str s) = if str_eq s "" then "unknown_tool" else s
tool_name_of c v = if truthy v then c.text v else "unknown_tool"

-- `json.dumps(inputs, default=str) if inputs else (input_str or "")`
abbrev args_preview_of : Codec → String → Fields → String
args_preview_of c input end = input
args_preview_of c input (field k v fs) = c.dumps (Value.obj (field k v fs))

module _ (h : Handler) where
  abbrev pub opening_of : Start → Opening
  opening_of st =
      let model = model_from h.codec st.serialized st.metadata h.model_hint in
      let ids = ids_for h.ids st.metadata st.active in
      record {
        service = h.service;
        request_id = st.request_id;
        conversation_id = ids.conversation_id;
        session_id = ids.session_id;
        user_id = ids.user_id;
        provider = provider_of h.lower model;
        model = or_unknown model;
        stream = true;
      }

  abbrev pub new_span : Start → String → InferenceSpan
  new_span st input = open_span (opening_of st) st.started_at input (run_metadata st.run_id)

  abbrev open_run : Start → String → SdkCallback → SdkCallback
  open_run st input s = record s {
    inference_runs = put st.run_id (new_span st input) s.inference_runs;
  }

  unfoldable pub on_chat_model_start : Start → List Entry → SdkCallback → SdkCallback
  on_chat_model_start st entries s = open_run st (last_human_text h.codec entries) s

  unfoldable pub on_llm_start : Start → List String → SdkCallback → SdkCallback
  on_llm_start st prompts s = open_run st (last_prompt prompts) s

  abbrev pub observe_in :
      String → ℕ → Option InferenceSpan → Option Message → SdkCallback → SdkCallback
  observe_in run_id elapsed none m s = s
  observe_in run_id elapsed (some span) none s = s
  observe_in run_id elapsed (some span) (some m) s = record s {
    inference_runs = put run_id (observe_chunk h.codec elapsed m span) s.inference_runs;
  }

  unfoldable pub on_llm_new_token : String → String → Option Message → ℕ → SdkCallback → SdkCallback
  on_llm_new_token run_id token chunk elapsed s =
      observe_in run_id elapsed (find run_id s.inference_runs) (token_chunk token chunk) s

  abbrev pub end_span : Option Message → Ending → InferenceSpan → SdkLog
  end_span final e span = of_inference (
      finalize h.redact e (status_of returned) (error_of returned)
        (call_all h.codec (final_calls final) span))

  abbrev pub close_run :
      String
      → Option Message
      → Ending
      → Option InferenceSpan
      → SdkCallback
      → SdkCallback × List SdkLog
  close_run run_id final e none s = (s, [])
  close_run run_id final e (some span) s = (
    record s {
      inference_runs = remove run_id s.inference_runs;
      tool_calls_made = s.tool_calls_made ++ calls_of final;
      last_inference_request_id = some span.opening.request_id;
    },
    end_span final e span ∷ [],
  )

  unfoldable pub on_llm_end :
      String → List (List Generation) → Ending → SdkCallback → SdkCallback × List SdkLog
  on_llm_end run_id gens e s =
      close_run run_id (final_ai_message gens) e (find run_id s.inference_runs) s

  abbrev pub fail_run :
      String → Exit → Ending → Option InferenceSpan → SdkCallback → SdkCallback × List SdkLog
  fail_run run_id exit e none s = (s, [])
  fail_run run_id exit e (some span) s = (
    record s { inference_runs = remove run_id s.inference_runs },
    of_inference (finalize h.redact e (status_of exit) (error_of exit) span) ∷ [],
  )

  unfoldable pub on_llm_error : String → Exit → Ending → SdkCallback → SdkCallback × List SdkLog
  on_llm_error run_id exit e s = fail_run run_id exit e (find run_id s.inference_runs) s

  abbrev pub tool_opening : Start → String → Option String → ToolOpening
  tool_opening st tool_call_id parent =
      let ids = ids_for h.ids st.metadata st.active in
      record {
        service = h.service;
        request_id = st.request_id;
        tool_call_id = tool_call_id;
        parent_inference_request_id = parent;
        conversation_id = ids.conversation_id;
        session_id = ids.session_id;
        user_id = ids.user_id;
        tool_name = tool_name_of h.codec (get "name" (dict_or_empty st.serialized));
      }

  unfoldable pub on_tool_start : Start → String → String → Option Fields → SdkCallback → SdkCallback
  on_tool_start st tool_call_id input inputs s =
      let args = args_preview_of h.codec input (dict_or_empty inputs) in
      let opening = tool_opening st tool_call_id s.last_inference_request_id in
      record s {
        tool_runs =
            put st.run_id (open_tool opening st.started_at args (run_metadata st.run_id))
              s.tool_runs;
      }

  abbrev pub close_tool :
      String
      → (ToolSpan → ToolSpan)
      → Exit
      → Ending
      → Option ToolSpan
      → SdkCallback
      → SdkCallback × List SdkLog
  close_tool run_id set exit e none s = (s, [])
  close_tool run_id set exit e (some span) s = (
    record s { tool_runs = remove run_id s.tool_runs },
    of_tool (finalize_tool h.redact e (status_of exit) (error_of exit) (set span)) ∷ [],
  )

  unfoldable pub on_tool_end : String → Value → Ending → SdkCallback → SdkCallback × List SdkLog
  on_tool_end run_id output e s =
      close_tool run_id (set_result h.codec h.utf8_len output) returned e (find run_id s.tool_runs)
        s

  unfoldable pub on_tool_error : String → Exit → Ending → SdkCallback → SdkCallback × List SdkLog
  on_tool_error run_id exit e s =
      close_tool run_id (λ span. span) exit e (find run_id s.tool_runs) s

  unfoldable pub handle : Callback → SdkCallback → SdkCallback × List SdkLog
  unfolding on_chat_model_start on_llm_start on_llm_new_token on_llm_end on_llm_error on_tool_start
      on_tool_end on_tool_error
  handle (chat_model_start st entries) s = (on_chat_model_start st entries s, [])
  handle (llm_start st prompts) s = (on_llm_start st prompts s, [])
  handle (llm_new_token run token chunk elapsed) s =
      (on_llm_new_token run token chunk elapsed s, [])
  handle (llm_end run gens e) s = on_llm_end run gens e s
  handle (llm_error run exit e) s = on_llm_error run exit e s
  handle (tool_start st call input inputs) s = (on_tool_start st call input inputs s, [])
  handle (tool_end run output e) s = on_tool_end run output e s
  handle (tool_error run exit e) s = on_tool_error run exit e s

  -- Callbacks in the order in which they come, with the logs that they submit.
  unfoldable pub handle_all : List Callback → SdkCallback → SdkCallback × List SdkLog
  unfolding handle
  handle_all [] s = (s, [])
  handle_all (cb ∷ cbs) s =
      let (s1, logs) = handle cb s in let (s2, more) = handle_all cbs s1 in (s2, logs ++ more)
