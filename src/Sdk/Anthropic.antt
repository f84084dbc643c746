-- ===== src/Sdk/Anthropic.antt =====
-- packages/chatbot-sdk/chatbot_sdk/integrations/anthropic.py: the wrapper of `messages.create` of an async
-- client, which also takes what a streaming call returns for an answer.
pub mod Answered
use inferspect.Prelude.{ℕ, String, true, false, Option, none, some, List, [], ◌∷◌, str_append}
use inferspect.Value.{Value, Fields, obj, end, truthy}
use inferspect.Value.Codec.{Codec}
use inferspect.Sdk.Schema.{InferenceLog}
use inferspect.Sdk.Client.Chunk.{object, nothing, whole, Usage, ToolCall, Message}
use inferspect.Sdk.Client.Span.{Opening, Ending}
use inferspect.Sdk.Client.Logger.{Exit, returned, SpanCall, respond, meta, inference_log}
use inferspect.Sdk.Openai.{last_user_text}

-- A block of the content, by its type.
pub data Block : Type 0 where
  text_block : Option String → Block
  tool_use_block : Option String → Option Value → Block
  other_block : Block

pub record AnthropicUsage : Type 0 where
  pub input_tokens : Option ℕ
  pub output_tokens : Option ℕ

-- A response; what has no `content` or `usage` has no blocks and `none`.
pub record Reply : Type 0 where
  pub content : List Block
  pub usage : Option AnthropicUsage

abbrev or_empty : Option String → String
or_empty none = ""
or_empty (some s) = s

abbrev or_zero : Option ℕ → Option ℕ
or_zero none = some 0
or_zero (some n) = some n

abbrev input_of : Option Value → Value
input_of none = obj end
input_of (some v) = elim (truthy v) [ true ↦ v | false ↦ obj end ]

abbrev pub blocks_text : List Block → String
blocks_text [] = ""
blocks_text (text_block t ∷ bs) = str_append (or_empty t) (blocks_text bs)
blocks_text (tool_use_block name input ∷ bs) = blocks_text bs
blocks_text (other_block ∷ bs) = blocks_text bs

abbrev pub blocks_calls : List Block → List ToolCall
blocks_calls [] = []
blocks_calls (text_block t ∷ bs) = blocks_calls bs
blocks_calls (tool_use_block name input ∷ bs) =
    record { name = some (or_empty name); args = some (input_of input) } ∷ blocks_calls bs
blocks_calls (other_block ∷ bs) = blocks_calls bs

abbrev usage_of : Option AnthropicUsage → Option Usage
usage_of none = none
usage_of (some u) =
    some (record { input_tokens = or_zero u.input_tokens; output_tokens = or_zero u.output_tokens })

unfoldable pub normalize_response : Reply → Message
normalize_response r = record {
  body = object (whole (blocks_text r.content)) none nothing;
  usage = usage_of r.usage;
  calls = blocks_calls r.content;
}

-- What the client does: the call raises or returns.
pub data Script : Type 0 where
  raises : Exit → Script
  answers : Reply → Script

-- The wrapper's block: the calls on the span and the exit; the metadata holds the times.
unfoldable pub wrapper : Fields → Script → List SpanCall × Exit
wrapper timing (raises e) = ([], e)
wrapper timing (answers r) = (respond (normalize_response r) ∷ meta timing ∷ [], returned)

-- The caller sees what the script says; the log is submitted. `Opening` has `provider="anthropic"`.
unfoldable pub create :
    Codec
    → (String → String)
    → Opening
    → List Value
    → ℕ
    → Fields
    → Fields
    → Script
    → Ending
    → InferenceLog
create c redact opening messages started_at metadata timing script e =
    let (calls, exit) = wrapper timing script in
    inference_log c redact (record opening { provider = "anthropic" }) started_at
      (last_user_text c messages) metadata calls exit e
