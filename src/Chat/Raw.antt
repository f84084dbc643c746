-- ===== src/Chat/Raw.antt =====
-- apps/chat-service/chat_service/llm/sdk_integrations.py: chats with the providers' own clients, which the
-- SDK has instrumented, over a script of what a client does.
pub mod Logged
pub mod Events
use inferspect.Prelude.{
  ℕ, String, Bool, true, false, ◌||◌, Option, none, some, List, [], ◌∷◌, str_eq, str_append,
  str_join, str_startswith, if◌then◌else◌,
}
use inferspect.Value.{Value, Fields, str, obj, end, field}
use inferspect.Value.Codec.{Codec}
use inferspect.Sdk.Schema.{InferenceLog}
use inferspect.Sdk.Client.Context.{Ids, current_ctx_kwargs}
use inferspect.Sdk.Client.Span.{Opening, Ending}
use inferspect.Sdk.Client.Logger.{Exit, returned}
use inferspect.Sdk.Anthropic as Anthropic
use inferspect.Sdk.Anthropic.{blocks_text}
use inferspect.Sdk.Openai as Openai
use inferspect.Sdk.Openai.{Completion, CompletionUsage, Delta, Timing}
use inferspect.Chat.Models.{strip_raw_prefix}

pub record RawResponse : Type 0 where
  pub content : String
  pub provider : String
  pub model : String
  pub prompt_tokens : ℕ
  pub completion_tokens : ℕ

abbrev message_of : String → String → Value
message_of role content = obj (field "role" (str role) (field "content" (str content) end))

abbrev openai_role : String → Bool
openai_role role = str_eq role "user" || (str_eq role "assistant" || str_eq role "system")

abbrev pub openai_history : List (String × String) → List Value
openai_history [] = []
openai_history ((role, content) ∷ rest) =
    let later = openai_history rest in
    if openai_role role then message_of role content ∷ later else later

-- `_to_openai_messages`
unfoldable pub to_openai_messages : String → List (String × String) → List Value
to_openai_messages system_prompt history =
    message_of "system" system_prompt ∷ openai_history history

-- `_to_anthropic_messages`
unfoldable pub to_anthropic_messages : List (String × String) → List Value
to_anthropic_messages [] = []
to_anthropic_messages ((role, content) ∷ rest) =
    let later = to_anthropic_messages rest in
    if str_eq role "user" || str_eq role "assistant" then message_of role content ∷ later else later

-- `_ctx`: the ids that a call of a client sees.
unfoldable pub context_ids : Bool → Option String → Option String → Option Ids → Option Ids
context_ids false conversation_id user_id active = active
context_ids true conversation_id user_id active =
    some (record { conversation_id = conversation_id; session_id = none; user_id = user_id })

abbrev pub or_empty : Option String → String
or_empty none = ""
or_empty (some s) = s

abbrev count : Option ℕ → ℕ
count none = 0
count (some n) = n

abbrev prompt_count : Option CompletionUsage → ℕ
prompt_count none = 0
prompt_count (some u) = count u.prompt_tokens

abbrev completion_count : Option CompletionUsage → ℕ
completion_count none = 0
completion_count (some u) = count u.completion_tokens

-- How a chat ends for the caller; `no_choice` is the IndexError of an answer without a choice.
pub data Reply : Type 0 where
  replied : RawResponse → Reply
  no_client unknown_model no_choice : Reply
  raised : Exit → Reply

abbrev pub reply_of : String → Completion → Reply
reply_of model r = elim r.choice [
  | none ↦ no_choice
  | some m ↦ replied (record {
    content = or_empty m.content;
    provider = "openai";
    model = model;
    prompt_tokens = prompt_count r.usage;
    completion_tokens = completion_count r.usage;
  })
]

-- A request, with the service's name and the id of the span that the client's wrapper opens.
pub record Request : Type 0 where
  pub model : String
  pub system_prompt : String
  pub history : List (String × String)
  pub conversation_id : Option String
  pub user_id : Option String
  pub service : String
  pub request_id : String

-- The call of the instrumented client.
abbrev pub call_of : Request → Bool → Openai.Call
call_of q stream =
    let ids = current_ctx_kwargs (context_ids true q.conversation_id q.user_id none) in
    record {
      service = q.service;
      request_id = q.request_id;
      conversation_id = ids.conversation_id;
      session_id = ids.session_id;
      user_id = ids.user_id;
      model = some (strip_raw_prefix q.model);
      stream = stream;
      messages = to_openai_messages q.system_prompt q.history;
    }

-- The texts that a stream yields: those of the chunks that have a choice and a text.
abbrev pub delta_text : Option Delta → String
delta_text none = ""
delta_text (some d) = or_empty d.content

abbrev pub deltas : List Completion → List String
deltas [] = []
deltas (r ∷ rs) =
    let later = deltas rs in
    if str_eq (delta_text r.choice) "" then later else delta_text r.choice ∷ later

-- A call that does not ask for a stream gives none, and one that does gives nothing else.
abbrev pub reply_seen : String → Openai.Seen → Reply
reply_seen model (Openai.sees_error e) = raised e
reply_seen model (Openai.sees r) = reply_of model r
reply_seen model (Openai.sees_stream chunks left) = no_choice

-- What a stream of text gives its consumer.
pub record Streamed : Type 0 where
  pub texts : List String
  pub left : Option Exit

abbrev pub streamed_seen : Openai.Seen → Streamed
streamed_seen (Openai.sees_error e) = record { texts = []; left = some e }
streamed_seen (Openai.sees r) = record { texts = []; left = none }
streamed_seen (Openai.sees_stream chunks left) = record { texts = deltas chunks; left = left }

-- `chat` and `stream_chat` with a model of OpenAI, where the client is there and the SDK has a logger.
module _ (c : Codec) (redact : String → String) (q : Request) (started_at : ℕ) (timing : Timing)
    (e : Ending) where
  unfoldable pub chat_openai : Openai.Script → Reply × InferenceLog
  chat_openai script =
      let (seen, log) = Openai.create c redact (call_of q false) started_at end timing script e in
      (reply_seen (strip_raw_prefix q.model) seen, log)

  unfoldable pub stream_openai : Openai.Script → Streamed × InferenceLog
  stream_openai script =
      let (seen, log) = Openai.create c redact (call_of q true) started_at end timing script e in
      (streamed_seen seen, log)

-- `chat`, with whether the clients are there: what is done by OpenAI's and by Anthropic's client, or
-- the error that is raised.
pub data Route : Type 0 where
  to_openai to_anthropic : Route
  refused : Reply → Route

unfoldable pub route : Bool → Bool → String → Route
route openai anthropic model =
    if str_startswith "raw-openai/" model
    then (if openai then to_openai else refused no_client)
    else if str_startswith "raw-anthropic/" model
    then (if anthropic then to_anthropic else refused no_client)
    else refused unknown_model

abbrev anthropic_count : Option Anthropic.AnthropicUsage → (Anthropic.AnthropicUsage → Option ℕ) → ℕ
anthropic_count none field_of = 0
anthropic_count (some u) field_of = count (field_of u)

abbrev pub anthropic_reply : String → Anthropic.Script → Reply
anthropic_reply model (Anthropic.raises e) = raised e
anthropic_reply model (Anthropic.answers r) = replied (record {
  content = blocks_text r.content;
  provider = "anthropic";
  model = model;
  prompt_tokens = anthropic_count r.usage (λ u. u.input_tokens);
  completion_tokens = anthropic_count r.usage (λ u. u.output_tokens);
})

abbrev pub anthropic_opening : Request → Bool → Opening
anthropic_opening q stream =
    let ids = current_ctx_kwargs (context_ids true q.conversation_id q.user_id none) in
    record {
      service = q.service;
      request_id = q.request_id;
      conversation_id = ids.conversation_id;
      session_id = ids.session_id;
      user_id = ids.user_id;
      provider = "anthropic";
      model = strip_raw_prefix q.model;
      stream = stream;
    }

-- `chat` with a model of Anthropic; the history is in the call without the system prompt.
unfoldable pub chat_anthropic :
    Codec
    → (String → String)
    → Request
    → ℕ
    → Fields
    → Anthropic.Script
    → Ending
    → Reply × InferenceLog
chat_anthropic c redact q started_at timing script e = (
  anthropic_reply (strip_raw_prefix q.model) script,
  Anthropic.create c redact (anthropic_opening q false) (to_anthropic_messages q.history) started_at
      end timing script e,
)
