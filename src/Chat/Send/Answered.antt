-- ===== src/Chat/Send/Answered.antt =====
-- What is left of a question that is sent.
use mathlib.Core.List.{append_assoc}
use inferspect.Prelude.{
  ℕ, ◌≡◌, ◌⊎◌, refl, ap, ◌∙◌, inl, inr, String, Option, none, some, List, [], ◌∷◌, ◌++◌,
}
use inferspect.Chat.Store.{
  Message, Session, create_conversation, get_for_user, bump_for_message, create_message,
  load_window,
}
use inferspect.Chat.Stream.{
  Service, user_message, assistant_message, Prepared, ready, http_error, prepare,
}
use inferspect.Chat.Stream.Counted.{session_of, resolved_session}
use inferspect.Chat.Send.{
  Replies, answer_on, Response, answered, refused, failed, add_message, conclude_send, converse,
  converse_on, send_message,
}

-- Either the question and its answer are both stored, or nothing is.
abbrev pub IsAtomic : List Message → Session → String → Response × Session → Type 0
IsAtomic before s content (response, s') =
    ((question : Message) × (answer : Message) × (response ≡ answered question answer)
      × (s'.committed.messages ≡ before ++ question ∷ answer ∷ [])
      × (question.content ≡ content)
      × (answer.conversation_id ≡ question.conversation_id))
    ⊎ (((response ≡ failed) ⊎ ((code : ℕ) × (detail : String) × (response ≡ refused code detail)))
        × (s'.committed ≡ s.committed))

module _ (service : Service) where
  conclude_send-IsAtomic :
      (question : Message) (model : String) (reply : Option (String × Option String))
      (before : List Message) (s asked : Session)
      → asked.committed ≡ s.committed
      → asked.working.messages ≡ before ++ question ∷ []
      → IsAtomic before s question.content (conclude_send service question model reply asked)
  unfolding add_message bump_for_message create_message
  conclude_send-IsAtomic question model none before s asked same stored = inr (inl refl, same)
  conclude_send-IsAtomic question model (some (content, request_id)) before s asked same stored =
      let answer =
        assistant_message service question.conversation_id content request_id "complete" in
      inl (
        question,
        answer,
        refl,
        ap (λ ms. ms ++ answer ∷ []) stored ∙ append_assoc before (question ∷ []) (answer ∷ []),
        refl,
        refl,
      )

  converse_on-IsAtomic :
      (replies : Replies) (p : Prepared) (content : String) (s : Session)
      → (session_of p s).committed ≡ s.committed
      → (session_of p s).working.messages ≡ s.working.messages
      → IsAtomic s.working.messages s content (converse_on service replies p content s)
  unfolding converse add_message bump_for_message create_message
  converse_on-IsAtomic replies (http_error code detail) content s same stored =
      inr (inr (code, detail, refl), refl)
  converse_on-IsAtomic replies (ready c model s') content s same stored =
      let question = user_message service c.id content in
      let asked = add_message service question model s' in
      conclude_send-IsAtomic question model
        (answer_on replies model (load_window service.memory_window c.id asked)) s.working.messages
        s asked same (ap (λ ms. ms ++ question ∷ []) stored)

  prepared :
      (user : String) (conversation model : Option String) (s : Session)
      → let s' = session_of (prepare service user conversation model s) s in
        (s'.committed ≡ s.committed) × (s'.working.messages ≡ s.working.messages)
  unfolding prepare create_conversation
  prepared user none model s = (refl, refl)
  prepared user (some id) model s =
      let same = resolved_session service model (get_for_user id user s) s in
      (ap (λ s'. s'.committed) same, ap (λ s'. s'.working.messages) same)

  -- A question that is sent without streaming is stored with its answer, after all messages before them,
  -- or, when the conversation is refused or the model raises, the database stays as it is: no new
  -- conversation and no question without an answer.
  pub send_message-IsAtomic :
      (replies : Replies) (user : String) (conversation : Option String) (content : String)
      (model : Option String) (s : Session)
      → IsAtomic s.working.messages s content
          (send_message service replies user conversation content model s)
  unfolding send_message
  send_message-IsAtomic replies user conversation content model s =
      let (same, stored) = prepared user conversation model s in
      converse_on-IsAtomic replies (prepare service user conversation model s) content s same stored
