-- ===== src/Tests/Clients.antt =====
-- A LangChain run with a tool between its tokens, a Google stream, a chat that streams from OpenAI's
-- client, and blocks of a synchronous logger.
use inferspect.Prelude.{ℕ, ◌≡◌, refl, String, some, none, List, [], ◌∷◌, str_append, str_join}
use inferspect.Prelude.Tables.{find}
use inferspect.Value.{str, end}
use inferspect.Value.Codec.{Codec}
use inferspect.Sdk.Schema.{InferenceLog, Status}
use inferspect.Sdk.Client.{truncate}
use inferspect.Sdk.Client.Chunk.{Message, plain}
use inferspect.Sdk.Client.Context.{no_ids}
use inferspect.Sdk.Client.Span.{Ending}
use inferspect.Sdk.Client.Logger.{Exit, returned, failed}
use inferspect.Sdk.Client.Responses.{final_text}
use inferspect.Sdk.Client.Streaming.{texts, first_time}
use inferspect.Sdk.Langchain.{Handler, Start, Generation, SdkCallback, of_inference}
use inferspect.Sdk.Langchain.Runs.{
  Callback, llm_new_token, tool_start, llm_start, on_chat_model_start, on_llm_end, handle_all,
}
use inferspect.Sdk.Langchain.Runs.Interleaved.{chunks_of, final_message, run_logs_once}
use inferspect.Sdk.Google as Google
use inferspect.Sdk.Google.Traced.{chunk_texts, added, generate_streams}
use inferspect.Sdk.Openai.{Completion, Timing, streams, yielded}
use inferspect.Chat.Models.{strip_raw_prefix}
use inferspect.Chat.Raw.{Request, deltas, stream_openai}
use inferspect.Chat.Raw.Logged.{stream_openai_logged}
use inferspect.Sdk.Sync.{Ended, AsyncLogger, init, with_logger}
use inferspect.Sdk.Sync.Blocks.{Block, blocks, stopped, with_logger-blocks}
use inferspect.Tests.Memory.{two_texts}

abbrev codec : Codec
codec = two_texts end end

abbrev ending : Ending
ending = record { finished_at = 1030; finalize_ms = "0.1"; overhead_ms = λ v. "0.1" }

abbrev handler : Handler
handler = record {
  codec = codec;
  lower = λ s. s;
  utf8_len = λ s. 0;
  redact = λ s. s;
  service = "chat";
  ids = no_ids;
  model_hint = some "gpt-4o";
}

abbrev start_of : String → Start
start_of run_id = record {
  run_id = run_id;
  serialized = none;
  metadata = record { ids = no_ids; ls_model_name = none; model = none };
  active = none;
  request_id = "q1";
  started_at = 1000;
}

abbrev idle : SdkCallback
idle = record {
  inference_runs = [];
  tool_runs = [];
  last_inference_request_id = none;
  tool_calls_made = [];
}

abbrev between : List Callback
between =
    llm_new_token "a" "Hel" none 12
    ∷ llm_start (start_of "b") ("other" ∷ [])
    ∷ tool_start (start_of "a") "c1" "{}" none
    ∷ llm_new_token "b" "no" none 13
    ∷ llm_new_token "a" "lo" none 20
    ∷ []

abbrev answer : Message
answer = record { body = plain "Hello"; usage = none; calls = [] }

abbrev generations : List (List Generation)
generations = (Generation.with_message (some answer) ∷ []) ∷ []

run_logs_once_example :
    let opened = on_chat_model_start handler (start_of "a") [] idle in
    let chunks = chunks_of "a" between in
    let (ended, logs) =
      on_llm_end handler "a" generations ending (handle_all handler between opened).0 in
    (log : InferenceLog) × (logs ≡ of_inference log ∷ [])
    × (find "a" ended.inference_runs ≡ none)
    × (log.request_id ≡ "q1")
    × (log.status ≡ Status.ok)
    × (log.ttft_ms ≡ first_time chunks)
    × (log.output_preview
        ≡ truncate (
            str_append
              (str_join (texts codec chunks))
              (final_text codec (final_message generations))))
run_logs_once_example =
    run_logs_once handler (start_of "a") [] between generations ending idle
      (refl, (refl, (refl, (refl, (refl, tt)))))

abbrev google_chunk : String → Google.GoogleResponse
google_chunk s = record { text = some s; parts = []; usage_metadata = none }

abbrev google_chunks : List (ℕ × Google.GoogleResponse)
google_chunks = (12, google_chunk "Hel") ∷ (20, google_chunk "lo") ∷ []

abbrev google_call : Google.Call
google_call = record {
  service = "chat";
  request_id = "q1";
  active = none;
  model = some "gemini-2.5-pro";
  contents = str "hi";
}

generate_streams_example :
    let (seen, log) =
      Google.generate codec (λ s. s) google_call 1000 (Google.streams google_chunks none) ending in
    (seen ≡ Google.sees_stream (Google.yielded google_chunks) none)
    × (log.output_preview
        ≡ truncate (str_append (str_join (chunk_texts google_chunks)) (added google_chunks none)))
    × (log.ttft_ms ≡ some 12)
    × (log.status ≡ Status.ok)
generate_streams_example =
    generate_streams codec (λ s. s) google_call 1000 google_chunks none ending

abbrev request : Request
request = record {
  model = "raw-openai/gpt-4o";
  system_prompt = "Be brief.";
  history = ("user", "hi") ∷ [];
  conversation_id = some "c1";
  user_id = some "u1";
  service = "chat";
  request_id = "q1";
}

abbrev completion : String → Completion
completion s = record { choice = some (record { content = some s; tool_calls = [] }); usage = none }

abbrev chunks : List (ℕ × Completion)
chunks =
    (12, completion "Hel")
    ∷ (15, record { choice = none; usage = none })
    ∷ (20, completion "lo")
    ∷ []

abbrev timing : Timing
timing = record { called = end; drained = end }

stream_openai_logged_example :
    let (seen, log) =
      stream_openai codec (λ s. s) request 1000 timing ending (streams chunks none) in
    (seen.left ≡ none)
    × (seen.texts ≡ deltas (yielded chunks))
    × (log.output_preview ≡ truncate (str_join seen.texts))
    × (log.conversation_id ≡ some "c1")
    × (log.user_id ≡ some "u1")
    × (log.model ≡ strip_raw_prefix "raw-openai/gpt-4o")
stream_openai_logged_example =
    stream_openai_logged codec (λ s. s) request 1000 timing ending chunks none

-- An async logger that notes the exits of its blocks.
abbrev noting : AsyncLogger (List Exit) ℕ
noting = record { start = λ s. (none, s); close = λ s. (none, s); exit_block = λ k e s. e ∷ s }

abbrev boom : Exit
boom = failed (record { type_name = "ValueError"; message = "boom" })

abbrev two_blocks : List (Block ℕ)
two_blocks = (1, returned) ∷ (2, boom) ∷ (3, returned) ∷ []

with_logger-blocks_example :
    with_logger noting (blocks noting two_blocks) (init noting [])
    ≡ (Ended.raised boom, stopped noting (boom ∷ returned ∷ []))
with_logger-blocks_example = with_logger-blocks noting two_blocks [] [] refl
