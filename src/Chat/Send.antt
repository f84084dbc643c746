-- ===== src/Chat/Send.antt =====
-- `ChatService.send_message` of apps/chat-service/chat_service/services/chat_service.py: a question and
-- its answer in one transaction.
pub mod Answered
use inferspect.Prelude.{ℕ, String, Option, none, some, List, [], ◌∷◌, reverse, if◌then◌else◌}
use inferspect.Chat.Store.{
  Message, Session, commit, rollback, bump_for_message, create_message, load_window,
}
use inferspect.Chat.Models.{is_raw_model}
use inferspect.Chat.Shown.{Chunk, no_chunk, content_of}
use inferspect.Chat.Stream.{
  Service, user_message, assistant_message, Prepared, ready, http_error, prepare,
}

-- A message of the agent's state: an AIMessage or another.
pub data AgentMessage : Type 0 where
  ai_message : Chunk → AgentMessage
  other_message : AgentMessage

abbrev first_ai : List AgentMessage → Chunk
first_ai [] = no_chunk
first_ai (ai_message c ∷ ms) = c
first_ai (other_message ∷ ms) = first_ai ms

-- `_content_of(_last_ai_message(messages))`
unfoldable pub final_text : List AgentMessage → String
final_text ms = content_of (first_ai (reverse ms))

-- What the model answers on a window, unless it raises: the text of a raw provider, or the messages of
-- the agent and `last_inference_request_id` of its callback.
pub record Replies : Type 0 where
  pub raw : String → List (String × String) → Option String
  pub agent : String → List (String × String) → Option (List AgentMessage × Option String)

abbrev from_raw : Option String → Option (String × Option String)
from_raw none = none
from_raw (some content) = some (content, none)

abbrev from_agent : Option (List AgentMessage × Option String) → Option (String × Option String)
from_agent none = none
from_agent (some (ms, request_id)) = some (final_text ms, request_id)

abbrev pub answer_on : Replies → String → List (String × String) → Option (String × Option String)
answer_on replies model window =
    if is_raw_model model
    then from_raw (replies.raw model window)
    else from_agent (replies.agent model window)

-- A response with the two messages, an `HTTPException`, or another exception.
pub data Response : Type 0 where
  answered : Message → Message → Response
  refused : (code : ℕ) (detail : String) → Response
  failed : Response

module _ (service : Service) where
  -- The insertion of a message and the bump of its conversation.
  unfoldable pub add_message : Message → String → Session → Session
  add_message m model s = bump_for_message m.conversation_id (some model) (create_message m s)

  abbrev pub conclude_send :
      Message → String → Option (String × Option String) → Session → Response × Session
  conclude_send question model none s = (failed, rollback s)
  conclude_send question model (some (content, request_id)) s =
      let answer =
        assistant_message service question.conversation_id content request_id "complete" in
      (answered question answer, commit (add_message answer model s))

  unfoldable pub converse : Replies → String → String → String → Session → Response × Session
  converse replies conversation model content s =
      let question = user_message service conversation content in
      let asked = add_message question model s in
      conclude_send question model
        (answer_on replies model (load_window service.memory_window conversation asked)) asked

  abbrev pub converse_on : Replies → Prepared → String → Session → Response × Session
  converse_on replies (http_error code detail) content s = (refused code detail, rollback s)
  converse_on replies (ready c model s') content s = converse replies c.id model content s'

  -- With the commit or the rollback of the request's session.
  unfoldable pub send_message :
      Replies → String → Option String → String → Option String → Session → Response × Session
  send_message replies user conversation content model s =
      converse_on replies (prepare service user conversation model s) content s
