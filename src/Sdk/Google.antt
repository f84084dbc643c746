-- ===== src/Sdk/Google.antt =====
-- packages/chatbot-sdk/chatbot_sdk/integrations/google.py: the wrappers of `aio.models.generate_content` and
-- `generate_content_stream`, over a script of what the client does.
pub mod Traced
use inferspect.Prelude.{
  ℕ, String, Bool, true, false, Option, none, some, List, [], ◌∷◌, ◌++◌, str_eq, str_take,
  str_append, str_join, if◌then◌else◌,
}
use inferspect.Value.{Value, Items, null, str, arr, obj, nil, cons, end, lookup, get}
use inferspect.Value.Codec.{Codec}
use inferspect.Sdk.Schema.{InferenceLog}
use inferspect.Sdk.Client.Chunk.{object, nothing, whole, Usage, Message}
use inferspect.Sdk.Client.Context.{Ids, current_ctx_kwargs}
use inferspect.Sdk.Client.Span.{Opening, Ending}
use inferspect.Sdk.Client.Streaming.{observed}
use inferspect.Sdk.Client.Responses.{final_calls}
use inferspect.Sdk.Client.Logger.{Exit, returned, SpanCall, respond, inference_log}

pub record GoogleUsage : Type 0 where
  pub prompt_token_count : Option ℕ
  pub candidates_token_count : Option ℕ

-- A response or a chunk: its `text`, which is `none` where it is missing or its property raises,
-- and the texts of the parts of its first candidate, as far as they can be read.
pub record GoogleResponse : Type 0 where
  pub text : Option String
  pub parts : List (Option String)
  pub usage_metadata : Option GoogleUsage

abbrev pub or_empty : Option String → String
or_empty none = ""
or_empty (some s) = s

abbrev parts_text : List (Option String) → String
parts_text [] = ""
parts_text (p ∷ ps) = str_append (or_empty p) (parts_text ps)

-- The text of a response, or of its parts where it has none.
abbrev pub response_text : GoogleResponse → String
response_text r = if str_eq (or_empty r.text) "" then parts_text r.parts else or_empty r.text

abbrev or_zero : Option ℕ → Option ℕ
or_zero none = some 0
or_zero (some n) = some n

abbrev usage_of : Option GoogleUsage → Option Usage
usage_of none = none
usage_of (some u) = some (record {
  input_tokens = or_zero u.prompt_token_count;
  output_tokens = or_zero u.candidates_token_count;
})

-- `_normalize_response`
unfoldable pub normalize_response : GoogleResponse → Message
normalize_response r = record {
  body = object (whole (response_text r)) none nothing;
  usage = usage_of r.usage_metadata;
  calls = [];
}

-- `_normalize_chunk`, which leaves the usage out.
unfoldable pub normalize_chunk : GoogleResponse → Message
normalize_chunk r = record {
  body = object (whole (or_empty r.text)) none nothing;
  usage = none;
  calls = [];
}

abbrev part_texts : Codec → Items → String
part_texts c nil = ""
part_texts c (cons (obj p) xs) =
    let rest = part_texts c xs in
    elim (lookup "text" p) [ none ↦ rest | some v ↦ str_append (c.text v) rest ]
part_texts c (cons _ xs) = part_texts c xs

abbrev parts_in : Codec → Value → String
parts_in c (arr xs) = part_texts c xs
parts_in c _ = ""

abbrev contents_text : Codec → Items → String
contents_text c nil = ""
contents_text c (cons (str s) xs) = str_append s (contents_text c xs)
contents_text c (cons (obj fs) xs) = str_append (parts_in c (get "parts" fs)) (contents_text c xs)
contents_text c (cons _ xs) = contents_text c xs

-- `_input_preview`, of the argument `contents`, which is None where it is missing.
unfoldable pub input_preview : Codec → Value → String
input_preview c null = ""
input_preview c (str s) = str_take 500 s
input_preview c (arr xs) = str_take 500 (contents_text c xs)
input_preview c v = str_take 500 (c.text v)

-- What the client does: a call raises or answers; a stream gives chunks, each with the time since
-- the start of the span, and is drained or left by an exception, which may come before any chunk.
pub data Script : Type 0 where
  raises : Exit → Script
  answers : GoogleResponse → Script
  streams : List (ℕ × GoogleResponse) → Option Exit → Script

pub data Seen : Type 0 where
  sees_error : Exit → Seen
  sees : GoogleResponse → Seen
  sees_stream : List GoogleResponse → Option Exit → Seen

abbrev pub normalized : List (ℕ × GoogleResponse) → List (ℕ × Message)
normalized [] = []
normalized ((t, chunk) ∷ rest) = (t, normalize_chunk chunk) ∷ normalized rest

abbrev pub yielded : List (ℕ × GoogleResponse) → List GoogleResponse
yielded [] = []
yielded ((t, chunk) ∷ rest) = chunk ∷ yielded rest

-- `final_chunk` after the loop, and the response that it is set as.
abbrev pub final_chunk : Option GoogleResponse → List (ℕ × GoogleResponse) → Option GoogleResponse
final_chunk before [] = before
final_chunk before ((t, chunk) ∷ rest) = final_chunk (some chunk) rest

abbrev pub as_response : Option GoogleResponse → Option Message
as_response none = none
as_response (some r) = some (normalize_response r)

-- The block of the wrapper: what the caller sees, the calls on the span and the exit.
unfoldable pub wrapper : Script → Seen × List SpanCall × Exit
wrapper (raises e) = (sees_error e, [], e)
wrapper (answers r) = (sees r, respond (normalize_response r) ∷ [], returned)
wrapper (streams chunks (some e)) =
    (sees_stream (yielded chunks) (some e), observed (normalized chunks), e)
wrapper (streams chunks none) = (
  sees_stream (yielded chunks) none,
  observed (normalized chunks) ++ final_calls (as_response (final_chunk none chunks)),
  returned,
)

pub record Call : Type 0 where
  pub service : String
  pub request_id : String
  pub active : Option Ids
  pub model : Option String
  pub contents : Value

abbrev model_of : Option String → String
model_of none = "unknown"
model_of (some m) = m

abbrev pub is_stream : Script → Bool
is_stream (streams chunks left) = true
is_stream _ = false

-- The method that streams is opened as a stream.
abbrev pub opening_of : Call → Bool → Opening
opening_of call stream =
    let ids = current_ctx_kwargs call.active in
    record {
      service = call.service;
      request_id = call.request_id;
      conversation_id = ids.conversation_id;
      session_id = ids.session_id;
      user_id = ids.user_id;
      provider = "google";
      model = model_of call.model;
      stream = stream;
    }

-- A call of a wrapped method: what the caller sees, and the log that is submitted.
unfoldable pub generate :
    Codec → (String → String) → Call → ℕ → Script → Ending → Seen × InferenceLog
generate c redact call started_at script e =
    let (seen, calls, exit) = wrapper script in
    (
      seen,
      inference_log c redact (opening_of call (is_stream script)) started_at
          (input_preview c call.contents) end calls exit e,
    )
