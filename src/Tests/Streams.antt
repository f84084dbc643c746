-- ===== src/Tests/Streams.antt =====
-- A stream of the chat service that is cancelled after its first text, and a conversation that is
-- cancelled.
use inferspect.Prelude.{ℕ, ◌≡◌, ◌⊎◌, ◌++◌, refl, String, Option, none, some, List, [], ◌∷◌}
use inferspect.Chat.Registry as Registry
use inferspect.Chat.Store.{Conversation, Db, Session, get_for_user}
use inferspect.Chat.Shown.{chunk_text}
use inferspect.Chat.Stream.{
  Sse, start, on_chat_model_stream, Run, interrupted, Service, Streamed, streamed, refused,
  user_message, stream, stream_send, prepare,
}
use inferspect.Chat.Stream.Kept.{shown, endings, IsKept, stream-IsKept}
use inferspect.Chat.Stream.Counted.{IsCounted, stream_send-IsCounted}
use inferspect.Chat.Send.{Replies, ai_message, send_message}
use inferspect.Chat.Send.Answered.{IsAtomic, send_message-IsAtomic}
use inferspect.Chat.Conversations.{User, visible_to, cancel_conversation}
use inferspect.Chat.Conversations.Cancelled.{cancel_conversation_stops}

abbrev run : Run
run = record {
  steps = on_chat_model_stream (chunk_text "Hel") ∷ on_chat_model_stream (chunk_text "lo") ∷ [];
  ending = interrupted;
  request_id = some "r1";
  tool_calls = [];
}

abbrev service : Service
service = record {
  default_model = "gemini-2.5-pro";
  memory_window = 12;
  answer = λ model window. run;
  conversation_id = "c9";
  question_id = "m1";
  answer_id = "m2";
  lower = λ s. s;
  literal_eval = λ s. none;
}

abbrev conversation : Conversation
conversation = record {
  id = "c1";
  user_id = "u1";
  model = none;
  status = "active";
  message_count = 0;
}

abbrev db : Db
db = record { conversations = conversation ∷ []; messages = [] }

abbrev session : Session
session = record { committed = db; working = db }

abbrev out : Streamed
out = stream service "c1" "gpt-4o" 7 "Hi" session Registry.empty_registry

stream-IsKept_example :
    (provider : String) × (body : List Sse) × (last : List Sse) × (out.sent
      ≡ start "c1" "m1" "gpt-4o" provider ∷ (body ++ last))
    × (endings body ≡ [])
    × IsKept service "c1"
        (user_message service "c1" "Hi" ∷ [])
        last
        (shown out.sent)
        out.session.committed.messages
stream-IsKept_example = stream-IsKept service "c1" "gpt-4o" 7 "Hi" session Registry.empty_registry

sent :
    stream_send service "u1" (some "c1") 7 "Hi" (some "gpt-4o") session Registry.empty_registry
    ≡ streamed out
unfolding stream_send prepare get_for_user
sent = refl

stream_send-IsCounted_example : IsCounted out.session.committed
stream_send-IsCounted_example =
    stream_send-IsCounted service "u1" (some "c1") 7 "Hi" (some "gpt-4o") session
      Registry.empty_registry out refl (refl, tt) sent

abbrev owner : User
owner = record { id = "u1"; role = "user" }

cancel_conversation_stops_example :
    let (reply, s', r') = cancel_conversation owner "c1" session Registry.empty_registry in
    (r' ≡ (Registry.cancel "c1" Registry.empty_registry).1)
    × (((visible_to owner "c1" session ≡ none) × (reply ≡ none) × (s'.committed ≡ db))
        ⊎ ((c : Conversation) × (other : Conversation) × (visible_to owner "c1" session ≡ some c)
            × (reply ≡ some other)
            × ((asker : String) (task : ℕ) (content : String) (model : Option String)
                  (later : Registry.Registry)
                → (code : ℕ) × (detail : String) × (stream_send service asker
                      (some "c1")
                      task
                      content
                      model
                      s'
                      later
                    ≡ refused code detail))))
cancel_conversation_stops_example =
    cancel_conversation_stops service owner "c1" session Registry.empty_registry

-- An agent that answers.
abbrev talkative : Replies
talkative = record {
  raw = λ model window. none;
  agent = λ model window. some (ai_message (chunk_text "Hello") ∷ [], some "r1");
}

send_message-IsAtomic_example :
    IsAtomic [] session "Hi"
      (send_message service talkative "u1" (some "c1") "Hi" (some "gpt-4o") session)
send_message-IsAtomic_example =
    send_message-IsAtomic service talkative "u1" (some "c1") "Hi" (some "gpt-4o") session
