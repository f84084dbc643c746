-- ===== src/Sdk/Llamaindex.antt =====
-- packages/chatbot-sdk/chatbot_sdk/integrations/llamaindex.py: `LlamaIndexCallback`, which opens and closes
-- a span for each LLM and function call. As for LangChain, the dict of the spans and the dict of
-- their blocks are one dict. `_run` drives a block's entry and exit, which do not wait, in one step.
pub mod Events
pub mod Closed
use inferspect.Prelude.{
  ℕ, ◌+◌, String, Bool, true, false, ◌||◌, Option, none, some, List, [], ◌∷◌, str_eq, str_take,
  str_startswith, if◌then◌else◌,
}
use inferspect.Prelude.Tables.{find, put, remove}
use inferspect.Value.{
  Value, Items, Fields, null, str, obj, arr, nil, cons, end, truthy, lookup, get, bool, int, float,
}
use inferspect.Value.Codec.{Codec}
use inferspect.Sdk.Client.Chunk.{object, whole, nothing, Usage, Message}
use inferspect.Sdk.Client.Context.{Ids, current_ctx_kwargs}
use inferspect.Sdk.Client.Span.{Opening, InferenceSpan, Ending, open_span, set_response, finalize}
use inferspect.Sdk.Client.Tool.{ToolSpan, ToolOpening, open_tool, set_result, finalize_tool}
use inferspect.Sdk.Client.Logger.{returned, status_of, error_of}
use inferspect.Sdk.Langchain.{SdkLog, of_inference, of_tool, starts_any}

-- An object of LlamaIndex by the attributes that are read: `content` of a message, `message` and
-- `text` of a response and `usage` of its `raw`, `name` of a tool.
pub record LlamaUsage : Type 0 where
  pub prompt_tokens : Option ℕ
  pub completion_tokens : Option ℕ

pub record LlamaResponse : Type 0 where
  pub message_content : Option Value
  pub text : Option Value
  pub usage : Option LlamaUsage

-- The payload of an event, by the keys that are read. `messages` and `tool` are an object with an
-- attribute, or a value. The key `response` leads to `response` in an LLM's event and to
-- `response_value` in a tool's.
pub data Holder : Type 0 where
  with_attribute : Option Value → Holder
  value : Value → Holder

pub record Payload : Type 0 where
  pub model_name : Value
  pub model : Value
  pub serialized : Value
  pub messages : List Holder
  pub prompt : Value
  pub formatted_prompt : Value
  pub response : Option LlamaResponse
  pub tool : Option Holder
  pub function_call_name : Value
  pub function_call : Value
  pub arguments : Value
  pub input : Value
  pub function_call_response : Value
  pub response_value : Value

-- `a or b`
abbrev pub or_else : Value → Value → Value
or_else a b = if truthy a then a else b

-- `str(v)`
abbrev text_of : Codec → Value → String
text_of c (str s) = s
text_of c v = c.text v

-- `_provider_for`
unfoldable pub provider_for : (String → String) → Option String → String
provider_for lower none = "unknown"
provider_for lower (some name) =
    if str_eq name ""
    then "unknown"
    else if starts_any ("gemini" ∷ "google" ∷ []) (lower name)
    then "google"
    else if starts_any ("gpt" ∷ "o1" ∷ "openai" ∷ []) (lower name)
    then "openai"
    else if starts_any ("claude" ∷ "anthropic" ∷ []) (lower name)
    then "anthropic"
    else "unknown"

abbrev first_true : Codec → List Value → Option String
first_true c [] = none
first_true c (v ∷ vs) =
    let later = first_true c vs in if truthy v then some (text_of c v) else later

-- The model that one key of the payload names: a text, or a dict with the model.
abbrev model_in : Codec → Value → Option String
model_in c (str s) = if str_eq s "" then none else some s
model_in c (obj fs) = first_true c (get "model" fs ∷ get "model_name" fs ∷ [])
model_in c _ = none

abbrev first_model : Codec → List Value → Option String
first_model c [] = none
first_model c (v ∷ vs) =
    let later = first_model c vs in elim (model_in c v) [ none ↦ later | some m ↦ some m ]

-- `_model_from_payload`
unfoldable pub model_from_payload : Codec → Payload → Option String
model_from_payload c p = first_model c (p.model_name ∷ p.model ∷ p.serialized ∷ [])

-- The attribute of an object if it is true, or the key of a dict.
abbrev attribute_or_key : String → Value → Holder → Value
attribute_or_key key missing (with_attribute none) = missing
attribute_or_key key missing (with_attribute (some v)) = if truthy v then v else missing
attribute_or_key key missing (value (obj fs)) = get key fs
attribute_or_key key missing (value v) = missing

abbrev last_of : List Holder → Option Holder
last_of [] = none
last_of (x ∷ xs) = elim (last_of xs) [ none ↦ some x | some y ↦ some y ]

abbrev prompt_text : Value → String
prompt_text (str s) = str_take 500 s
prompt_text _ = ""

-- `_input_preview`
unfoldable pub input_preview : Codec → Payload → String
input_preview c p = elim (last_of p.messages) [
  | none ↦ prompt_text (or_else p.prompt p.formatted_prompt)
  | some m ↦ str_take 500 (text_of c (attribute_or_key "content" (str "") m))
]

abbrev true_text : Codec → Option Value → String
true_text c none = ""
true_text c (some v) = if truthy v then text_of c v else ""

abbrev or_zero : Option ℕ → ℕ
or_zero none = 0
or_zero (some n) = n

abbrev usage_of : Option LlamaUsage → Option Usage
usage_of none = none
usage_of (some u) = some (record {
  input_tokens = some (or_zero u.prompt_tokens);
  output_tokens = some (or_zero u.completion_tokens);
})

-- The message's text, or else the response's own.
abbrev pub response_text : Codec → Option LlamaResponse → String
response_text c none = ""
response_text c (some r) =
    let text = true_text c r.message_content in if str_eq text "" then true_text c r.text else text

abbrev usage_in : Option LlamaResponse → Option LlamaUsage
usage_in none = none
usage_in (some r) = r.usage

-- `_normalize_llm_response`
unfoldable pub normalize_llm_response : Codec → Payload → Message
normalize_llm_response c p = record {
  body = object (whole (response_text c p.response)) none nothing;
  usage = usage_of (usage_in p.response);
  calls = [];
}

abbrev name_in : Codec → Option Holder → Option String
name_in c none = none
name_in c (some h) = first_true c (attribute_or_key "name" null h ∷ [])

-- `_tool_name_from_payload`
unfoldable pub tool_name_from_payload : Codec → Payload → String
tool_name_from_payload c p = elim (name_in c p.tool) [
  | none ↦ text_of c (or_else p.function_call_name (str "unknown_tool"))
  | some name ↦ name
]

-- `_tool_args_preview`, where every value can be written as JSON.
abbrev args_text : Codec → Value → String
args_text c null = ""
args_text c (str s) = str_take 500 s
args_text c v = str_take 500 (c.dumps v)

unfoldable pub tool_args_preview : Codec → Payload → String
tool_args_preview c p = args_text c (or_else p.function_call (or_else p.arguments p.input))

abbrev pub or_unknown : Option String → String
or_unknown none = "unknown"
or_unknown (some m) = if str_eq m "" then "unknown" else m
