-- ===== src/Chat/Raw/Events.antt =====
-- apps/chat-service/chat_service/llm/sdk_integrations.py: the clients that are made, `stream_chat` with a
-- model of Anthropic, and the callback that a chat over LangChain gets.
use inferspect.Prelude.{
  ℕ, ◌≡◌, refl, String, Bool, true, Option, none, some, List, [], ◌∷◌, str_eq, if◌then◌else◌,
}
use inferspect.Value.{Fields, end}
use inferspect.Value.Codec.{Codec}
use inferspect.Sdk.Schema.{InferenceLog, Status}
use inferspect.Sdk.Client.{truncate}
use inferspect.Sdk.Client.Span.{Ending}
use inferspect.Sdk.Client.Logger.{Exit}
use inferspect.Sdk.Anthropic.{Reply, blocks_text, raises, answers, create}
use inferspect.Sdk.Anthropic.Answered.{create-answers}
use inferspect.Sdk.Langchain.{Handler, SdkCallback}
use inferspect.Chat.Raw.{Request, Streamed, anthropic_opening, to_anthropic_messages}

-- What making a client of a provider's library comes to.
pub data Made (C : Type 0) : Type 0 where
  import_failed init_failed : Made C
  made : C → Made C

-- `_make_openai` and `_make_anthropic`, with the SDK's `instrument` and whether there is a logger.
unfoldable pub make_client : {C : Type 0} → (C → C) → Bool → Made C → Option C
make_client instrument logger import_failed = none
make_client instrument logger init_failed = none
make_client instrument logger (made client) = some (if logger then instrument client else client)

-- `build_langchain_callback`, of the handler that the logger gives.
unfoldable pub build_langchain_callback :
    Option Handler → String → String → String → Option (Handler × SdkCallback)
build_langchain_callback none conversation_id user_id model_hint = none
build_langchain_callback (some h) conversation_id user_id model_hint = some (
  record h {
    ids = record {
      conversation_id = some conversation_id;
      session_id = none;
      user_id = some user_id;
    };
    model_hint = some model_hint;
  },
  record {
    inference_runs = [];
    tool_runs = [];
    last_inference_request_id = none;
    tool_calls_made = [];
  },
)

-- An event of a stream, with the text of its delta.
pub data StreamEvent : Type 0 where
  content_block_delta : Option String → StreamEvent
  other_event : StreamEvent

abbrev pub event_text : StreamEvent → String
event_text (content_block_delta none) = ""
event_text (content_block_delta (some s)) = s
event_text other_event = ""

abbrev pub event_texts : List StreamEvent → List String
event_texts [] = []
event_texts (ev ∷ evs) =
    let later = event_texts evs in
    if str_eq (event_text ev) "" then later else event_text ev ∷ later

-- What the call does: it raises, or gives an object, with what is read of it as a response, whose
-- events are drained or left by an exception.
pub data StreamScript : Type 0 where
  call_raises : Exit → StreamScript
  gives : Reply → List StreamEvent → Option Exit → StreamScript

module _ (c : Codec) (redact : String → String) (q : Request) (started_at : ℕ) (timing : Fields)
    (e : Ending) where
  unfoldable pub stream_anthropic : StreamScript → Streamed × InferenceLog
  stream_anthropic (call_raises exit) = (
    record { texts = []; left = some exit },
    create c redact (anthropic_opening q true) (to_anthropic_messages q.history) started_at end
        timing (raises exit) e,
  )
  stream_anthropic (gives object events left) = (
    record { texts = event_texts events; left = left },
    create c redact (anthropic_opening q true) (to_anthropic_messages q.history) started_at end
        timing (answers object) e,
  )

  -- Whatever a stream of Anthropic's client gives its consumer and however it ends, the one log has
  -- the status ok and no text but what the object itself has as a response.
  pub stream_anthropic_unobserved :
      (object : Reply) (events : List StreamEvent) (left : Option Exit)
      → let (seen, log) = stream_anthropic (gives object events left) in
        (seen.texts ≡ event_texts events)
        × (seen.left ≡ left)
        × (log.output_preview ≡ redact (truncate (blocks_text object.content)))
        × (log.status ≡ Status.ok)
  unfolding stream_anthropic
  stream_anthropic_unobserved object events left =
      let logged =
        create-answers c redact (anthropic_opening q true) (to_anthropic_messages q.history)
          started_at end timing object e in
      (refl, refl, logged.0, logged.2)
