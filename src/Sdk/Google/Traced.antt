-- ===== src/Sdk/Google/Traced.antt =====
-- What the caller of an instrumented client sees of a stream, and what is logged of it.
use inferspect.Prelude.{
  ℕ, ◌≡◌, refl, ap, ap₂, ◌∙◌, String, Option, none, some, List, [], ◌∷◌, str_append, str_join, true,
}
use inferspect.Value.{end}
use inferspect.Value.Codec.{Codec}
use inferspect.Sdk.Client.{truncate}
use inferspect.Sdk.Client.Chunk.{chunk_text}
use inferspect.Sdk.Client.Span.{Ending, open_span, finalize}
use inferspect.Sdk.Client.Logger.{Exit, returned, status_of, call_all, inference_log}
use inferspect.Sdk.Client.Streaming.{texts, first_time, observed}
use inferspect.Sdk.Client.Responses.{final_calls, final_text, call_all-append, stream-Collects}
use inferspect.Sdk.Google.{
  GoogleResponse, or_empty, response_text, normalize_response, normalize_chunk, streams,
  sees_stream, normalized, yielded, final_chunk, as_response, wrapper, Call, opening_of,
  input_preview, generate,
}

abbrev pub exit_of : Option Exit → Exit
exit_of none = returned
exit_of (some e) = e

abbrev pub chunk_texts : List (ℕ × GoogleResponse) → List String
chunk_texts [] = []
chunk_texts ((t, chunk) ∷ rest) = or_empty chunk.text ∷ chunk_texts rest

abbrev pub time_of : List (ℕ × GoogleResponse) → Option ℕ
time_of [] = none
time_of ((t, chunk) ∷ rest) = some t

abbrev text_of : Option GoogleResponse → String
text_of none = ""
text_of (some r) = response_text r

abbrev last_of : List (ℕ × GoogleResponse) → Option GoogleResponse
last_of [] = none
last_of ((t, chunk) ∷ []) = some chunk
last_of (_ ∷ later ∷ rest) = last_of (later ∷ rest)

-- What is logged after the chunks: nothing, or the text of the last chunk.
abbrev pub added : List (ℕ × GoogleResponse) → Option Exit → String
added chunks none = text_of (last_of chunks)
added chunks (some e) = ""

final_chunk-last_of :
    (before : Option GoogleResponse) (x : ℕ × GoogleResponse) (rest : List (ℕ × GoogleResponse))
    → final_chunk before (x ∷ rest) ≡ last_of (x ∷ rest)
final_chunk-last_of before (t, chunk) [] = refl
final_chunk-last_of before (t, chunk) (later ∷ rest) = final_chunk-last_of (some chunk) later rest

final_chunk_last : (chunks : List (ℕ × GoogleResponse)) → final_chunk none chunks ≡ last_of chunks
final_chunk_last [] = refl
final_chunk_last (x ∷ rest) = final_chunk-last_of none x rest

texts-normalized :
    (c : Codec) (chunks : List (ℕ × GoogleResponse))
    → texts c (normalized chunks) ≡ chunk_texts chunks
unfolding normalize_chunk chunk_text
texts-normalized c [] = refl
texts-normalized c ((t, chunk) ∷ rest) =
    ap (λ xs. or_empty chunk.text ∷ xs) (texts-normalized c rest)

first_time-normalized :
    (chunks : List (ℕ × GoogleResponse)) → first_time (normalized chunks) ≡ time_of chunks
first_time-normalized [] = refl
first_time-normalized ((t, chunk) ∷ rest) = refl

final_text-response :
    (c : Codec) (last : Option GoogleResponse) → final_text c (as_response last) ≡ text_of last
unfolding normalize_response chunk_text
final_text-response c none = refl
final_text-response c (some r) = refl

-- A call that streams gives the caller the chunks as they came and the exception that ended them,
-- if any. Its one log has the text of all chunks that came, in order, and after a stream that was
-- drained the text of its last chunk once more, truncated and redacted, the time of the first chunk
-- and the status of how the stream ended.
pub generate_streams :
    (c : Codec) (redact : String → String) (call : Call) (started_at : ℕ)
    (chunks : List (ℕ × GoogleResponse)) (left : Option Exit) (e : Ending)
    → let (seen, log) = generate c redact call started_at (streams chunks left) e in
      (seen ≡ sees_stream (yielded chunks) left)
      × (log.output_preview
          ≡ redact (truncate (str_append (str_join (chunk_texts chunks)) (added chunks left))))
      × (log.ttft_ms ≡ time_of chunks)
      × (log.status ≡ status_of (exit_of left))
unfolding generate wrapper inference_log finalize open_span call_all
generate_streams c redact call started_at chunks none e =
    let span = open_span (opening_of call true) started_at (input_preview c call.contents) end in
    let final = as_response (final_chunk none chunks) in
    let all = stream-Collects c (normalized chunks) final span in
    let split = call_all-append c (observed (normalized chunks)) (final_calls final) span in
    (
      refl,
      ap (λ s. redact (truncate (str_join s.output_chunks))) split
          ∙ ap (λ t. redact (truncate t)) all.output
          ∙ ap₂ (λ xs t. redact (truncate (str_append (str_join xs) t))) (texts-normalized c chunks)
              (final_text-response c (final_chunk none chunks)
                ∙ ap text_of (final_chunk_last chunks)),
      ap (λ s. s.ttft_ms) split ∙ all.ttft ∙ first_time-normalized chunks,
      refl,
    )
generate_streams c redact call started_at chunks (some exit) e =
    let span = open_span (opening_of call true) started_at (input_preview c call.contents) end in
    let all = stream-Collects c (normalized chunks) none span in
    (
      refl,
      ap (λ t. redact (truncate t)) all.output
          ∙ ap (λ xs. redact (truncate (str_append (str_join xs) ""))) (texts-normalized c chunks),
      all.ttft ∙ first_time-normalized chunks,
      refl,
    )
