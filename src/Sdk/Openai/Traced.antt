-- ===== src/Sdk/Openai/Traced.antt =====
-- What the caller of an instrumented client sees, and what is logged of the call.
use inferspect.Prelude.{
  ℕ, ◌≡◌, refl, ap, ap₂, ◌∙◌, String, Option, none, some, List, [], ◌∷◌, str_join, true,
}
use inferspect.Value.{Fields}
use inferspect.Value.Codec.{Codec}
use inferspect.Sdk.Client.{truncate}
use inferspect.Sdk.Client.Chunk.{chunk_text}
use inferspect.Sdk.Client.Span.{Ending, open_span, finalize}
use inferspect.Sdk.Client.Logger.{
  Exit, returned, status_of, meta, call_span, call_all, inference_log,
}
use inferspect.Sdk.Client.Limits.{call_all-Keeps}
use inferspect.Sdk.Client.Responses.{call_all-append}
use inferspect.Sdk.Client.Streaming.{observed, texts, first_time, distinct, stream_log}
use inferspect.Value.{update}
use inferspect.Sdk.Openai.{
  Completion, Script, Timing, streams, sees_stream, normalized, yielded, wrapper, Call, opening_of,
  last_user_text, create, normalize_chunk, Delta, CompletionUsage,
}

abbrev exit_of : Option Exit → Exit
exit_of none = returned
exit_of (some e) = e

-- The text of a chunk's first choice.
abbrev pub choice_text : Option Delta → String
choice_text none = ""
choice_text (some d) = elim d.content [ none ↦ "" | some s ↦ s ]

abbrev pub contents : List (ℕ × Completion) → List String
contents [] = []
contents ((t, chunk) ∷ rest) = choice_text chunk.choice ∷ contents rest

abbrev pub time_of : List (ℕ × Completion) → Option ℕ
time_of [] = none
time_of ((t, chunk) ∷ rest) = some t

text_of_chunk :
    (c : Codec) (r : Completion) → chunk_text c (normalize_chunk r).body ≡ choice_text r.choice
unfolding normalize_chunk chunk_text
text_of_chunk c r = by_choice r.choice r.usage
  where
    by_choice :
        (choice : Option Delta) (usage : Option CompletionUsage)
        → chunk_text c (normalize_chunk (record { choice = choice; usage = usage })).body
          ≡ choice_text choice
    by_choice none usage = refl
    by_choice (some d) usage = elim d.content [ none ↦ refl | some s ↦ refl ]

texts-normalized :
    (c : Codec) (chunks : List (ℕ × Completion)) → texts c (normalized chunks) ≡ contents chunks
texts-normalized c [] = refl
texts-normalized c ((t, chunk) ∷ rest) =
    ap₂ (λ x xs. x ∷ xs) (text_of_chunk c chunk) (texts-normalized c rest)

first_time-normalized :
    (chunks : List (ℕ × Completion)) → first_time (normalized chunks) ≡ time_of chunks
first_time-normalized [] = refl
first_time-normalized ((t, chunk) ∷ rest) = refl

-- A call that streams gives the caller the chunks as they came and the exception that ended them, if
-- any. Its one log has the text of all chunks that came, in order, truncated and redacted, the time of the
-- first, and the status of how the stream ended, and
-- no two of its tool calls have the same name.
pub create_streams :
    (c : Codec) (redact : String → String) (call : Call) (started_at : ℕ) (metadata : Fields)
    (timing : Timing) (chunks : List (ℕ × Completion)) (left : Option Exit) (e : Ending)
    → let (seen, log) = create c redact call started_at metadata timing (streams chunks left) e in
      (seen ≡ sees_stream (yielded chunks) left)
      × (log.output_preview ≡ redact (truncate (str_join (contents chunks))))
      × (log.ttft_ms ≡ time_of chunks)
      × (log.status ≡ status_of (exit_of left))
      × (distinct log.tool_calls_summary ≡ true)
unfolding create wrapper inference_log call_all call_span open_span finalize
create_streams c redact call started_at metadata timing chunks (some exit) e =
    let (out, first, tools) =
      stream_log c redact (opening_of call) started_at (last_user_text c call.messages)
        (update timing.called metadata) (normalized chunks) exit e in
    (
      refl,
      out ∙ ap (λ ts. redact (truncate (str_join ts))) (texts-normalized c chunks),
      first ∙ first_time-normalized chunks,
      refl,
      tools,
    )
create_streams c redact call started_at metadata timing chunks none e =
    let (out, first, tools) =
      stream_log c redact (opening_of call) started_at (last_user_text c call.messages)
        (update timing.called metadata) (normalized chunks) returned e in
    let end_of = call_all-append c (observed (normalized chunks)) (meta timing.drained ∷ []) _ in
    (
      refl,
      ap (λ s. redact (truncate (str_join s.output_chunks))) end_of
          ∙ out
          ∙ ap (λ ts. redact (truncate (str_join ts))) (texts-normalized c chunks),
      ap (λ s. s.ttft_ms) end_of ∙ first ∙ first_time-normalized chunks,
      refl,
      ap (λ s. distinct s.tool_calls) end_of ∙ tools,
    )

-- Whatever the client does, the log keeps the ids and the model of the call.
pub create_opening :
    (c : Codec) (redact : String → String) (call : Call) (started_at : ℕ) (metadata : Fields)
    (timing : Timing) (script : Script) (e : Ending)
    → let log = (create c redact call started_at metadata timing script e).1 in
      (log.conversation_id ≡ (opening_of call).conversation_id)
      × (log.user_id ≡ (opening_of call).user_id)
      × (log.model ≡ (opening_of call).model)
unfolding create inference_log finalize open_span
create_opening c redact call started_at metadata timing script e =
    let span = open_span (opening_of call) started_at (last_user_text c call.messages) metadata in
    let kept = (call_all-Keeps c (wrapper c timing script).1 span).opening in
    (ap (λ o. o.conversation_id) kept, ap (λ o. o.user_id) kept, ap (λ o. o.model) kept)
