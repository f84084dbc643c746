-- ===== src/Chat/Stream.antt =====
-- `stream_send` of apps/chat-service/chat_service/services/chat_service.py, over a script of what the
-- model does and of how it ends.
pub mod Counted
pub mod Kept
pub mod Asked
use inferspect.Prelude.{
  ℕ, String, Bool, true, false, Option, none, some, List, [], ◌∷◌, ◌++◌, str_eq, str_join,
  if◌then◌else◌,
}
use inferspect.Chat.Registry.{Registry, register, unregister}
use inferspect.Chat.Store.{
  Message, Conversation, Session, commit, rollback, create_conversation, get_for_user,
  bump_for_message, create_message, load_window,
}
use inferspect.Chat.Models.{is_raw_model, provider_for_raw, provider_for}
use inferspect.Chat.Shown.{Chunk, ToolInput, ToolOutput, content_of, safe_args, tool_result_text}

-- What the service sends to the client.
pub data Sse : Type 0 where
  start : (conversation_id user_message_id model provider : String) → Sse
  delta : String → Sse
  tool_call : (name args : String) → Sse
  tool_result : (name result : String) → Sse
  done : (assistant_message_id : String) → Option String → List String → Sse
  cancelled : (assistant_message_id partial_content : String) → Sse

-- A text of a raw provider, an event of the agent, or a change of the registry by another task.
pub data Step : Type 0 where
  raw_text : String → Step
  on_chat_model_stream : Chunk → Step
  on_tool_start : String → ToolInput → Step
  on_tool_end : String → ToolOutput → Step
  other_event : Step
  meanwhile : (Registry → Registry) → Step

-- The model has ended; the task is cancelled before that, or while the answer is stored; or there is
-- another exception.
pub data Ending : Type 0 where
  finished interrupted interrupted_storing broken : Ending

-- What the model does on a window, with `last_inference_request_id` and `tool_calls_made` of the
-- callback.
pub record Run : Type 0 where
  pub steps : List Step
  pub ending : Ending
  pub request_id : Option String
  pub tool_calls : List String

-- Settings, the model, the ids of new rows, and the standard library's `str.lower` and
-- `ast.literal_eval`.
pub record Service : Type 0 where
  pub default_model : String
  pub memory_window : ℕ
  pub answer : String → List (String × String) → Run
  pub conversation_id : String
  pub question_id : String
  pub answer_id : String
  pub lower : String → String
  pub literal_eval : String → Option String

-- The texts of `chunks`.
abbrev pub chunk_of : Step → String
chunk_of (raw_text s) = s
chunk_of (on_chat_model_stream c) = content_of c
chunk_of _ = ""

abbrev chunks_from : String → List String → List String
chunks_from text rest = if str_eq text "" then rest else text ∷ rest

abbrev pub chunks : List Step → List String
chunks [] = []
chunks (step ∷ steps) = chunks_from (chunk_of step) (chunks steps)

abbrev deltas : String → List Sse → List Sse
deltas text rest = if str_eq text "" then rest else delta text ∷ rest

pub data Prepared : Type 0 where
  ready : Conversation → String → Session → Prepared
  http_error : ℕ → String → Prepared

pub record Streamed : Type 0 where
  pub sent : List Sse
  pub session : Session
  pub registry : Registry

-- `stream_send`, with the error of an `HTTPException` on the left.
pub data Reply : Type 0 where
  refused : ℕ → String → Reply
  streamed : Streamed → Reply

-- A raw model has no callback.
abbrev pub with_callback : Bool → Run → Run
with_callback true run = record run { request_id = none; tool_calls = [] }
with_callback false run = run

module _ (service : Service) where
  -- What the loops send.
  abbrev pub sent_for : List Step → List Sse
  sent_for [] = []
  sent_for (on_tool_start name input ∷ steps) = tool_call name (safe_args input) ∷ sent_for steps
  sent_for (on_tool_end name output ∷ steps) =
      tool_result name (tool_result_text service.literal_eval output) ∷ sent_for steps
  sent_for (step ∷ steps) = deltas (chunk_of step) (sent_for steps)

  abbrev pub others : List Step → Registry → Registry
  others [] r = r
  others (meanwhile f ∷ steps) r = others steps (f r)
  others (step ∷ steps) r = others steps r

  abbrev pub or_text : String → String → String
  or_text a b = if str_eq a "" then b else a

  abbrev pub text_of : Option String → String
  text_of none = ""
  text_of (some s) = s

  abbrev pub resolved : Option String → Option Conversation → Session → Prepared
  resolved model none s = http_error 404 "conversation not found"
  resolved model (some c) s =
      if str_eq c.status "cancelled"
      then http_error 409 "conversation cancelled"
      else ready c (or_text (text_of model) (or_text (text_of c.model) service.default_model)) s

  abbrev created : Option String → Conversation × Session → Prepared
  created model (c, s) =
      ready c (or_text (text_of model) (or_text (text_of c.model) service.default_model)) s

  -- `_prepare` with `_resolve_conversation`.
  unfoldable pub prepare : String → Option String → Option String → Session → Prepared
  prepare user none model s = created model (
      create_conversation service.conversation_id user
        (some (or_text (text_of model) service.default_model)) s)
  prepare user (some id) model s = resolved model (get_for_user id user s) s

  -- The insertion of a message and the bump of its conversation, committed.
  unfoldable pub store_message : Message → String → Session → Session
  store_message m model s =
      commit (bump_for_message m.conversation_id (some model) (create_message m s))

  abbrev pub user_message : String → String → Message
  user_message conversation content = record {
    id = service.question_id;
    conversation_id = conversation;
    role = "user";
    content = content;
    inference_request_id = none;
    status = "complete";
  }

  abbrev pub assistant_message : String → String → Option String → String → Message
  assistant_message conversation content request_id status = record {
    id = service.answer_id;
    conversation_id = conversation;
    role = "assistant";
    content = content;
    inference_request_id = request_id;
    status = status;
  }

  abbrev pub stop : String → String → Run → Session → List Sse × Session
  stop conversation model run s =
      let partial = str_join (chunks run.steps) in
      (
        cancelled service.answer_id partial ∷ [],
        store_message
            (assistant_message conversation (or_text partial "(cancelled before any output)")
              run.request_id "cancelled")
            model (rollback s),
      )

  -- What follows the loops: the last event, if any, and the session. An interruption while the answer is
  -- stored finds it inserted and not committed.
  unfoldable pub conclude : Ending → String → String → Run → Session → List Sse × Session
  conclude finished conversation model run s = (
    done service.answer_id run.request_id run.tool_calls ∷ [],
    store_message
        (assistant_message conversation (str_join (chunks run.steps)) run.request_id "complete")
        model s,
  )
  conclude interrupted conversation model run s = stop conversation model run s
  conclude interrupted_storing conversation model run s = stop conversation model run (
      create_message
        (assistant_message conversation (str_join (chunks run.steps)) run.request_id "complete") s)
  conclude broken conversation model run s = ([], s)

  abbrev provider : String → String
  provider model =
      if is_raw_model model then provider_for_raw model else provider_for service.lower model

  -- The task is registered while the model runs.
  unfoldable pub stream : String → String → ℕ → String → Session → Registry → Streamed
  stream conversation model task content s r =
      let asked = store_message (user_message conversation content) model s in
      let run =
        with_callback (is_raw_model model)
          (service.answer model (load_window service.memory_window conversation asked)) in
      let (last, s') = conclude run.ending conversation model run asked in
      record {
        sent =
            start conversation service.question_id model (provider model)
            ∷ (sent_for run.steps ++ last);
        session = s';
        registry = unregister conversation task (others run.steps (register conversation task r));
      }

  abbrev pub reply_for : Prepared → ℕ → String → Registry → Reply
  reply_for (http_error code detail) task content r = refused code detail
  reply_for (ready c model s) task content r = streamed (stream c.id model task content s r)

  unfoldable pub stream_send :
      String → Option String → ℕ → String → Option String → Session → Registry → Reply
  stream_send user conversation task content model s r =
      reply_for (prepare user conversation model s) task content r
