-- ===== src/Tests/Spans.antt =====
-- A span that streams two chunks of one tool call and is then cancelled.
use inferspect.Prelude.{
  ℕ, ◌+◌, ◌≤◌, ◌≡◌, String, false, true, some, none, List, [], ◌∷◌, length, str_len, str_join,
}
use inferspect.Value.{end}
use inferspect.Value.Codec.{Codec}
use inferspect.Sdk.Schema.{InferenceLog, Status}
use inferspect.Sdk.Client.{truncate}
use inferspect.Sdk.Client.Chunk.{Message, plain}
use inferspect.Sdk.Client.Span.{Opening, Ending}
use inferspect.Sdk.Client.Logger.{Exit, cancelled, inference_log}
use inferspect.Sdk.Client.Limits.{is_ok, is_missing, log_limits}
use inferspect.Sdk.Client.Streaming.{observed, distinct}
use inferspect.Sdk.Openai.{Completion, Call, Timing, streams, sees_stream, yielded, create}
use inferspect.Sdk.Openai.Traced.{contents, create_streams}
use inferspect.Tests.Memory.{two_texts}

abbrev codec : Codec
codec = two_texts end end

abbrev opening : Opening
opening = record {
  service = "chat";
  request_id = "r1";
  conversation_id = none;
  session_id = none;
  user_id = none;
  provider = "openai";
  model = "m";
  stream = true;
}

abbrev chunk : String → Message
chunk s = record {
  body = plain s;
  usage = some (record { input_tokens = some 7; output_tokens = none });
  calls = record { name = some "search"; args = none } ∷ [];
}

abbrev stream : List (ℕ × Message)
stream = (12, chunk "Hel") ∷ (20, chunk "lo") ∷ []

abbrev exit : Exit
exit = cancelled (record { type_name = "CancelledError"; message = "" })

abbrev ending : Ending
ending = record { finished_at = 1030; finalize_ms = "0.1"; overhead_ms = λ v. "0.1" }

abbrev log : InferenceLog
log = inference_log codec (λ s. s) opening 1000 "hi" end (observed stream) exit ending

log_limits_example :
    (log.request_id ≡ "r1")
    × (log.input_preview ≡ truncate "hi")
    × (str_len (truncate "hi") ≤ 501)
    × ((shown : String) × (log.output_preview ≡ shown) × (str_len shown ≤ 501))
    × (log.total_tokens ≡ log.prompt_tokens + log.completion_tokens)
    × (log.tool_calls_count ≡ length log.tool_calls_summary)
    × (is_missing log.finish_reason ≡ false)
    × (is_ok log.status ≡ is_missing log.error_code)
log_limits_example = log_limits codec (λ s. s) opening 1000 "hi" end (observed stream) exit ending

-- A stream of two chunks that is left by its caller.
abbrev completion : String → Completion
completion s = record { choice = some (record { content = some s; tool_calls = [] }); usage = none }

abbrev chunks : List (ℕ × Completion)
chunks = (12, completion "Hel") ∷ (20, completion "lo") ∷ []

abbrev call : Call
call = record {
  service = "chat";
  request_id = "r1";
  conversation_id = none;
  session_id = none;
  user_id = none;
  model = some "gpt-4o";
  stream = true;
  messages = [];
}

abbrev timing : Timing
timing = record { called = end; drained = end }

create_streams_example :
    let (seen, logged) =
      create codec (λ s. s) call 1000 end timing (streams chunks (some exit)) ending in
    (seen ≡ sees_stream (yielded chunks) (some exit))
    × (logged.output_preview ≡ truncate (str_join (contents chunks)))
    × (logged.ttft_ms ≡ some 12)
    × (logged.status ≡ Status.cancelled)
    × (distinct logged.tool_calls_summary ≡ true)
create_streams_example =
    create_streams codec (λ s. s) call 1000 end timing chunks (some exit) ending
