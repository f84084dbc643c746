-- ===== src/Sdk/Langchain.antt =====
-- packages/chatbot-sdk/chatbot_sdk/integrations/langchain.py: `SDKCallback`, which opens and closes a span
-- for each run of LangChain. `_inference_spans` and `_inference_cms` are written and popped
-- together, and a block's entry and exit do not wait, so the two stand as one dict from the run to
-- its open span; so do the dicts of the tools. A span that a second start of its run replaces is
-- left to the collector.
pub mod Runs
use inferspect.Prelude.{
  ℕ, String, Bool, true, false, ◌||◌, Option, none, some, List, [], ◌∷◌, ◌++◌, reverse, str_eq,
  str_startswith, if◌then◌else◌,
}
use inferspect.Prelude.Tables.{find, put, remove}
use inferspect.Value.{Value, Fields, str, obj, end, field, truthy, lookup, get}
use inferspect.Value.Codec.{Codec}
use inferspect.Sdk.Schema.{InferenceLog, ToolExecutionLog}
use inferspect.Sdk.Client.Chunk.{object, whole, nothing, Message, ToolCall}
use inferspect.Sdk.Client.Context.{Ids, current_context}
use inferspect.Sdk.Client.Span.{
  Opening, InferenceSpan, Ending, open_span, observe_chunk, set_response, finalize,
}
use inferspect.Sdk.Client.Tool.{ToolSpan, ToolOpening, open_tool, set_result, finalize_tool}
use inferspect.Sdk.Client.Logger.{Exit, returned, status_of, error_of}

-- What the module takes from Python and the SDK: `json`, `lower`, the length in bytes and the
-- redactor; and what the constructor is given.
pub record Handler : Type 0 where
  pub codec : Codec
  pub lower : String → String
  pub utf8_len : String → ℕ
  pub redact : String → String
  pub service : String
  pub ids : Ids
  pub model_hint : Option String

-- The keys of a run's metadata that are read.
pub record RunMetadata : Type 0 where
  pub ids : Ids
  pub ls_model_name : Option Value
  pub model : Option Value

-- A message in the nested lists of a start; its `content` is the empty text where it has none.
pub record LcMessage : Type 0 where
  pub type : Option String
  pub content : Value

pub data Entry : Type 0 where
  message : LcMessage → Entry
  batch : List LcMessage → Entry

-- A generation, with or without an attribute `message`.
pub data Generation : Type 0 where
  with_message : Option Message → Generation
  bare : Message → Generation

-- `_provider_for`
abbrev pub starts_any : List String → String → Bool
starts_any [] s = false
starts_any (p ∷ ps) s = str_startswith p s || starts_any ps s

unfoldable pub provider_for : (String → String) → String → String
provider_for lower name =
    if str_eq name ""
    then "unknown"
    else if starts_any ("gemini" ∷ "google" ∷ []) (lower name)
    then "google"
    else if starts_any ("gpt" ∷ "o1" ∷ "openai" ∷ []) (lower name)
    then "openai"
    else if starts_any ("claude" ∷ "anthropic" ∷ []) (lower name)
    then "anthropic"
    else "unknown"

-- The first of the keys that leads to a value that is true, as text.
abbrev first_named : Codec → List String → Fields → Option String
first_named c [] kwargs = none
first_named c (k ∷ ks) kwargs =
    let later = first_named c ks kwargs in
    elim (lookup k kwargs) [ none ↦ later | some v ↦ if truthy v then some (c.text v) else later ]

abbrev fields_of : Value → Fields
fields_of (obj fs) = fs
fields_of _ = end

abbrev dict_or_empty : Option Fields → Fields
dict_or_empty none = end
dict_or_empty (some fs) = fs

abbrev true_text : Codec → Option Value → Option String
true_text c none = none
true_text c (some v) = if truthy v then some (c.text v) else none

abbrev first_some {ℓ} : {A : Type ℓ} → Option A → Option A → Option A
first_some none later = later
first_some (some a) later = some a

-- `_model_from`
unfoldable pub model_from : Codec → Option Fields → RunMetadata → Option String → Option String
model_from c serialized metadata hint =
    first_some
      (first_named c ("model" ∷ "model_name" ∷ "deployment_name" ∷ [])
        (fields_of (get "kwargs" (dict_or_empty serialized))))
      (first_some (true_text c metadata.ls_model_name)
        (first_some (true_text c metadata.model) hint))

abbrev is_human : Option String → Bool
is_human none = false
is_human (some t) = str_eq t "human"

abbrev value_text : Codec → Value → String
value_text c (str s) = s
value_text c v = c.text v

abbrev first_human : Codec → List LcMessage → String
first_human c [] = ""
first_human c (m ∷ ms) =
    let later = first_human c ms in if is_human m.type then value_text c m.content else later

-- The messages among the entries: a list has no `type`.
abbrev messages_in : List Entry → List LcMessage
messages_in [] = []
messages_in (message m ∷ es) = m ∷ messages_in es
messages_in (batch ms ∷ es) = messages_in es

abbrev flat_from : List Entry → List Entry → List LcMessage
flat_from (batch ms ∷ es) entries = ms
flat_from _ entries = messages_in entries

-- `_last_human_text`
unfoldable pub last_human_text : Codec → List Entry → String
last_human_text c entries = first_human c (reverse (flat_from (reverse entries) entries))

abbrev last_of {ℓ} : {A : Type ℓ} → List A → Option A
last_of [] = none
last_of (x ∷ xs) = elim (last_of xs) [ none ↦ some x | some y ↦ some y ]

abbrev message_in : Generation → Option Message
message_in (with_message m) = m
message_in (bare m) = some m

-- `_final_ai_message`, of the attribute `generations`.
unfoldable pub final_ai_message : List (List Generation) → Option Message
final_ai_message gens = elim (last_of gens) [
  | none ↦ none
  | some gen ↦ elim (last_of gen) [ none ↦ none | some g ↦ message_in g ]
]

-- `_pick`: the constructor, then the metadata, then the context.
abbrev pick : Option String → Option String → Option String → Option String
pick given meta ctx = first_some given (first_some meta ctx)

-- `_ids_for`
unfoldable pub ids_for : Ids → RunMetadata → Option Ids → Ids
unfolding current_context
ids_for given metadata active =
    let ctx = current_context active in
    record {
      conversation_id = pick given.conversation_id metadata.ids.conversation_id ctx.conversation_id;
      session_id = pick given.session_id metadata.ids.session_id ctx.session_id;
      user_id = pick given.user_id metadata.ids.user_id ctx.user_id;
    }

-- The start of a run, with the context that is active and the id and the time of the new span.
pub record Start : Type 0 where
  pub run_id : String
  pub serialized : Option Fields
  pub metadata : RunMetadata
  pub active : Option Ids
  pub request_id : String
  pub started_at : ℕ

-- The state of an `SDKCallback`.
pub record SdkCallback : Type 0 where
  pub inference_runs : List (String × InferenceSpan)
  pub tool_runs : List (String × ToolSpan)
  pub last_inference_request_id : Option String
  pub tool_calls_made : List ToolCall

pub data SdkLog : Type 0 where
  of_inference : InferenceLog → SdkLog
  of_tool : ToolExecutionLog → SdkLog

abbrev or_unknown : Option String → String
or_unknown none = "unknown"
or_unknown (some m) = if str_eq m "" then "unknown" else m

abbrev provider_of : (String → String) → Option String → String
provider_of lower none = "unknown"
provider_of lower (some m) = provider_for lower m
