-- ===== src/Sdk/Openai.antt =====
-- packages/chatbot-sdk/chatbot_sdk/integrations/openai.py: the wrapper of `chat.completions.create` of
-- an async client, over a script of what the client does.
pub mod Traced
use inferspect.Prelude.{
  ℕ, String, Bool, true, false, not, ◌||◌, Option, none, some, List, [], ◌∷◌, ◌++◌, reverse, str_eq,
  str_take, str_append, if◌then◌else◌,
}
use inferspect.Value.{Value, Items, Fields, str, arr, obj, nil, cons, end, truthy, lookup, get}
use inferspect.Value.Codec.{Codec}
use inferspect.Sdk.Schema.{InferenceLog}
use inferspect.Sdk.Client.Chunk.{Chunk, object, nothing, whole, Usage, ToolCall, Message}
use inferspect.Sdk.Client.Span.{Opening, Ending, Raised}
use inferspect.Sdk.Client.Streaming.{observed}
use inferspect.Sdk.Client.Logger.{Exit, returned, SpanCall, observe, respond, meta, inference_log}

-- `tc.function`, with arguments that are missing, a text or another value.
pub record Function : Type 0 where
  pub name : Option String
  pub arguments : Option Value

-- A message or a delta; a tool call may have no function.
pub record Delta : Type 0 where
  pub content : Option String
  pub tool_calls : List (Option Function)

pub record CompletionUsage : Type 0 where
  pub prompt_tokens : Option ℕ
  pub completion_tokens : Option ℕ

-- A ChatCompletion or a ChatCompletionChunk, by its first choice.
pub record Completion : Type 0 where
  pub choice : Option Delta
  pub usage : Option CompletionUsage

abbrev or_empty : Option String → String
or_empty none = ""
or_empty (some s) = s

abbrev or_zero : Option ℕ → Option ℕ
or_zero none = some 0
or_zero (some n) = some n

abbrev pub usage_of : Option CompletionUsage → Option Usage
usage_of none = none
usage_of (some u) =
    some (record {
      input_tokens = or_zero u.prompt_tokens;
      output_tokens = or_zero u.completion_tokens;
    })

abbrev name_of : Option Function → String
name_of none = ""
name_of (some fn) = or_empty fn.name

abbrev arguments_of : Option Function → Option Value
arguments_of none = none
arguments_of (some fn) = fn.arguments

abbrev loaded : Option Value → Value → Value
loaded none raw = raw
loaded (some v) raw = v

-- A text is parsed where it can be; of anything else, `raw_args or {}`.
abbrev parsed_args : Codec → Option Value → Value
parsed_args c none = obj end
parsed_args c (some (str s)) = loaded (c.loads s) (str s)
parsed_args c (some v) = if truthy v then v else obj end

abbrev response_calls : Codec → List (Option Function) → List ToolCall
response_calls c [] = []
response_calls c (fn ∷ fns) =
    record { name = some (name_of fn); args = some (parsed_args c (arguments_of fn)) }
    ∷ response_calls c fns

abbrev or_blank : Option Value → Value
or_blank none = str ""
or_blank (some v) = if truthy v then v else str ""

abbrev has_arguments : Option Value → Bool
has_arguments none = false
has_arguments (some v) = truthy v

-- Only a call that has a name or arguments is kept.
abbrev pub chunk_calls : List (Option Function) → List ToolCall
chunk_calls [] = []
chunk_calls (fn ∷ fns) =
    let rest = chunk_calls fns in
    if not (str_eq (name_of fn) "") || has_arguments (arguments_of fn)
    then record { name = some (name_of fn); args = some (or_blank (arguments_of fn)) } ∷ rest
    else rest

abbrev packed : String → Option CompletionUsage → List ToolCall → Message
packed content usage calls = record {
  body = object (whole content) none nothing;
  usage = usage_of usage;
  calls = calls;
}

-- `_normalize_response`; with no choice there is no content and no call.
unfoldable pub normalize_response : Codec → Completion → Message
normalize_response c r = elim r.choice [
  | none ↦ packed "" r.usage []
  | some m ↦ packed (or_empty m.content) r.usage (response_calls c m.tool_calls)
]

unfoldable pub normalize_chunk : Completion → Message
normalize_chunk r = elim r.choice [
  | none ↦ packed "" r.usage []
  | some d ↦ packed (or_empty d.content) r.usage (chunk_calls d.tool_calls)
]

-- The texts of a content list.
abbrev content_text : Codec → Items → String
content_text c nil = ""
content_text c (cons (obj p) xs) =
    let rest = content_text c xs in
    elim (lookup "text" p) [ none ↦ rest | some v ↦ str_append (c.text v) rest ]
content_text c (cons (str p) xs) = str_append p (content_text c xs)
content_text c (cons _ xs) = content_text c xs

abbrev is_user : Value → Bool
is_user (str s) = str_eq s "user"
is_user _ = false

abbrev user_text : Codec → Value → Option String
user_text c (str s) = some (str_take 500 s)
user_text c (arr xs) = some (str_take 500 (content_text c xs))
user_text c _ = none

abbrev text_of_user : Codec → Value → Option String
text_of_user c (obj m) = if is_user (get "role" m) then user_text c (get "content" m) else none
text_of_user c _ = none

abbrev first_text : Codec → List Value → String
first_text c [] = ""
first_text c (m ∷ ms) =
    let later = first_text c ms in elim (text_of_user c m) [ none ↦ later | some t ↦ t ]

-- `_last_user_text`
unfoldable pub last_user_text : Codec → List Value → String
last_user_text c messages = first_text c (reverse messages)

-- What the client does: the call raises, answers, or gives a stream of chunks, each with the time
-- since the start of the span, that is drained or left by an exception.
pub data Script : Type 0 where
  raises : Exit → Script
  answers : Completion → Script
  streams : List (ℕ × Completion) → Option Exit → Script

-- What the caller sees.
pub data Seen : Type 0 where
  sees_error : Exit → Seen
  sees : Completion → Seen
  sees_stream : List Completion → Option Exit → Seen

abbrev pub normalized : List (ℕ × Completion) → List (ℕ × Message)
normalized [] = []
normalized ((t, chunk) ∷ rest) = (t, normalize_chunk chunk) ∷ normalized rest

abbrev pub yielded : List (ℕ × Completion) → List Completion
yielded [] = []
yielded ((t, chunk) ∷ rest) = chunk ∷ yielded rest

-- The times that are stamped, as the metadata after the call and after a stream.
pub record Timing : Type 0 where
  pub called : Fields
  pub drained : Fields

-- `_stream_proxy`: what it yields, the calls on the span and the exit.
abbrev pub stream_proxy : Timing → List (ℕ × Completion) → Option Exit → Seen × List SpanCall × Exit
stream_proxy timing chunks none = (
  sees_stream (yielded chunks) none,
  observed (normalized chunks) ++ meta timing.drained ∷ [],
  returned,
)
stream_proxy timing chunks (some e) =
    (sees_stream (yielded chunks) (some e), observed (normalized chunks), e)

abbrev after_call : SpanCall → Seen × List SpanCall × Exit → Seen × List SpanCall × Exit
after_call call (seen, calls, exit) = (seen, call ∷ calls, exit)

-- The wrapper's block.
unfoldable pub wrapper : Codec → Timing → Script → Seen × List SpanCall × Exit
wrapper c timing (raises e) = (sees_error e, [], e)
wrapper c timing (answers r) =
    (sees r, respond (normalize_response c r) ∷ meta timing.called ∷ [], returned)
wrapper c timing (streams chunks left) =
    after_call (meta timing.called) (stream_proxy timing chunks left)

-- What a call is given: `model`, `stream` and `messages`, and the context of the logger.
pub record Call : Type 0 where
  pub service : String
  pub request_id : String
  pub conversation_id : Option String
  pub session_id : Option String
  pub user_id : Option String
  pub model : Option String
  pub stream : Bool
  pub messages : List Value

abbrev model_of : Option String → String
model_of none = "unknown"
model_of (some m) = m

abbrev pub opening_of : Call → Opening
opening_of call = record {
  service = call.service;
  request_id = call.request_id;
  conversation_id = call.conversation_id;
  session_id = call.session_id;
  user_id = call.user_id;
  provider = "openai";
  model = model_of call.model;
  stream = call.stream;
}

-- A call of the wrapped method: what the caller sees, and the log that is submitted.
unfoldable pub create :
    Codec → (String → String) → Call → ℕ → Fields → Timing → Script → Ending → Seen × InferenceLog
create c redact call started_at metadata timing script e =
    let (seen, calls, exit) = wrapper c timing script in
    (
      seen,
      inference_log c redact (opening_of call) started_at (last_user_text c call.messages) metadata
          calls exit e,
    )
