-- ===== src/Sdk/Llamaindex/Closed.antt =====
-- The log of an LLM call, whatever other events come between its start and its end.
use inferspect.Prelude.{
  ◌≡◌, refl, ap, ◌∙◌, String, Bool, false, Option, none, some, List, [], ◌∷◌, All, str_eq, eq_refl,
}
use inferspect.Prelude.Tables.{find, find-put, find-remove, put-other, remove-other}
use inferspect.Sdk.Schema.{Status, InferenceLog}
use inferspect.Sdk.Client.{truncate}
use inferspect.Sdk.Client.Chunk.{chunk_text}
use inferspect.Sdk.Client.Span.{InferenceSpan, Ending, open_span, finalize}
use inferspect.Sdk.Client.Tool.{ToolSpan}
use inferspect.Sdk.Client.Logger.{call_span, call_all}
use inferspect.Sdk.Client.Responses.{stream-Collects}
use inferspect.Sdk.Langchain.{of_inference}
use inferspect.Sdk.Llamaindex.{Payload, normalize_llm_response, response_text}
use inferspect.Sdk.Llamaindex.Events.{
  Handler, LlamaIndexCallback, llm, function_call, other, Stamp, Event, event_start, event_end,
  new_span, open_inference, closed_log, close_found, close_inference, open_tool_call,
  close_tool_found, close_tool_call, on_event, on_events,
}

-- The event starts or ends the LLM call of this id.
abbrev pub bounds_call : String → Event → Bool
bounds_call id (event_start llm p j st) = str_eq j id
bounds_call id (event_end llm p j e) = str_eq j id
bounds_call id _ = false

module _ (h : Handler) (id : String) where
  close-find :
      (j : String) (p : Payload) (e : Ending) (mine : Option InferenceSpan) (s : LlamaIndexCallback)
      (span : InferenceSpan)
      → str_eq j id ≡ false
      → find id s.inference_spans ≡ some span
      → find id (close_found h j p e mine s).0.inference_spans ≡ some span
  close-find j p e none s span away found = found
  close-find j p e (some sp) s span away found = remove-other j id span s.inference_spans away found

  tool-find :
      (j : String) (p : Payload) (e : Ending) (mine : Option ToolSpan) (s : LlamaIndexCallback)
      (span : InferenceSpan)
      → find id s.inference_spans ≡ some span
      → find id (close_tool_found h j p e mine s).0.inference_spans ≡ some span
  tool-find j p e none s span found = found
  tool-find j p e (some sp) s span found = found

  on_event-find :
      (ev : Event) (s : LlamaIndexCallback) (span : InferenceSpan)
      → bounds_call id ev ≡ false
      → find id s.inference_spans ≡ some span
      → find id (on_event h ev s).0.inference_spans ≡ some span
  unfolding on_event open_inference close_inference open_tool_call close_tool_call
  on_event-find (event_start llm p j st) s span away found =
      put-other j id (new_span h p st) span s.inference_spans away found
  on_event-find (event_start function_call p j st) s span away found = found
  on_event-find (event_start other p j st) s span away found = found
  on_event-find (event_end llm p j e) s span away found =
      close-find j p e (find j s.inference_spans) s span away found
  on_event-find (event_end function_call p j e) s span away found =
      tool-find j p e (find j s.tool_spans) s span found
  on_event-find (event_end other p j e) s span away found = found

  on_events-find :
      (evs : List Event) (s : LlamaIndexCallback) (span : InferenceSpan)
      → All (λ ev. bounds_call id ev ≡ false) evs
      → find id s.inference_spans ≡ some span
      → find id (on_events h evs s).0.inference_spans ≡ some span
  unfolding on_events
  on_events-find [] s span away found = found
  on_events-find (ev ∷ evs) s span away found =
      on_events-find evs (on_event h ev s).0 span away.1 (on_event-find ev s span away.0 found)

-- An LLM call, whatever other events come between its start and its end, submits one log at its
-- end and is over. The log has the request id of the call's span, the status ok, no time of a first
-- chunk, and the truncated text of the response, redacted, once.
pub call_logs_once :
    (h : Handler) (id : String) (asked answered : Payload) (st : Stamp) (evs : List Event)
    (e : Ending) (s : LlamaIndexCallback)
    → All (λ ev. bounds_call id ev ≡ false) evs
    → let opened = open_inference h id asked st s in
      let (ended, logs) = close_inference h id answered e (on_events h evs opened).0 in
      (log : InferenceLog) × (logs ≡ of_inference log ∷ [])
      × (find id ended.inference_spans ≡ none)
      × (log.request_id ≡ st.request_id)
      × (log.status ≡ Status.ok)
      × (log.ttft_ms ≡ none)
      × (log.output_preview ≡ h.redact (truncate (response_text h.codec answered.response)))
unfolding open_inference close_inference finalize open_span normalize_llm_response chunk_text
    call_all call_span
call_logs_once h id asked answered st evs e s away =
    let span = new_span h asked st in
    let opened = open_inference h id asked st s in
    let late = (on_events h evs opened).0 in
    let held : find id late.inference_spans ≡ some span =
      on_events-find h id evs opened span away
        (find-put id id span s.inference_spans ∙ rw (eq_refl id) refl) in
    let all = stream-Collects h.codec [] (some (normalize_llm_response h.codec answered)) span in
    (
      closed_log h answered e span,
      ap (λ mine. (close_found h id answered e mine late).1) held,
      ap (λ mine. find id (close_found h id answered e mine late).0.inference_spans) held
          ∙ find-remove id id late.inference_spans
          ∙ rw (eq_refl id) refl,
      ap (λ o. o.request_id) all.opening,
      refl,
      all.ttft,
      ap (λ t. h.redact (truncate t)) all.output,
    )
