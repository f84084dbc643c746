-- ===== src/Chat/Store.antt =====
-- apps/chat-service/chat_service/repositories and llm/memory.py: conversations and messages in a
-- database session. An id stands as its text; the messages stand in the order of `created_at`, which a
-- transaction gives to all that it inserts, so no two of them come from one transaction.
use inferspect.Prelude.{
  ℕ, ◌+◌, ◌-◌, String, ◌&&◌, Option, none, some, List, [], ◌∷◌, ◌++◌, map, length, drop, str_eq,
  if◌then◌else◌,
}

pub record Message : Type 0 where
  pub id : String
  pub conversation_id : String
  pub role : String
  pub content : String
  pub inference_request_id : Option String
  pub status : String

pub record Conversation : Type 0 where
  pub id : String
  pub user_id : String
  pub model : Option String
  pub status : String
  pub message_count : ℕ

pub record Db : Type 0 where
  pub conversations : List Conversation
  pub messages : List Message

-- What is committed, and what the open transaction sees.
pub record Session : Type 0 where
  pub committed : Db
  pub working : Db

abbrev pub commit : Session → Session
commit s = record s { committed = s.working }

abbrev pub rollback : Session → Session
rollback s = record s { working = s.committed }

abbrev pub find : String → String → List Conversation → Option Conversation
find id user_id [] = none
find id user_id (c ∷ cs) =
    let later = find id user_id cs in
    if str_eq c.id id && str_eq c.user_id user_id then some c else later

unfoldable pub get_for_user : String → String → Session → Option Conversation
get_for_user id user_id s = find id user_id s.working.conversations

abbrev pub find_by_id : String → List Conversation → Option Conversation
find_by_id id [] = none
find_by_id id (c ∷ cs) = let later = find_by_id id cs in if str_eq c.id id then some c else later

unfoldable pub get_by_id : String → Session → Option Conversation
get_by_id id s = find_by_id id s.working.conversations

abbrev pub with_status : String → String → Conversation → Conversation
with_status id status c = if str_eq c.id id then record c { status = status } else c

unfoldable pub set_status : String → String → Session → Session
set_status id status s = record s {
  working = record s.working {
    conversations = map (with_status id status) s.working.conversations;
  };
}

-- The new row has the id that the database session gives it.
unfoldable pub create_conversation :
    String → String → Option String → Session → Conversation × Session
create_conversation new user_id model s =
    let c : Conversation = record {
      id = new;
      user_id = user_id;
      model = model;
      status = "active";
      message_count = 0;
    } in
    (
      c,
      record s { working = record s.working { conversations = s.working.conversations ++ c ∷ [] } },
    )

abbrev pub bump : String → Option String → Conversation → Conversation
bump id none c = if str_eq c.id id then record c { message_count = c.message_count + 1 } else c
bump id (some model) c =
    if str_eq c.id id
    then record c { message_count = c.message_count + 1; model = some model }
    else c

unfoldable pub bump_for_message : String → Option String → Session → Session
bump_for_message id model s = record s {
  working = record s.working { conversations = map (bump id model) s.working.conversations };
}

unfoldable pub create_message : Message → Session → Session
create_message m s = record s {
  working = record s.working { messages = s.working.messages ++ m ∷ [] };
}

abbrev pub of_conversation : String → List Message → List Message
of_conversation id [] = []
of_conversation id (m ∷ ms) =
    let rest = of_conversation id ms in if str_eq m.conversation_id id then m ∷ rest else rest

unfoldable pub list_for_conversation : String → Session → List Message
list_for_conversation id s = of_conversation id s.working.messages

-- The last `n`, in chronological order.
unfoldable pub list_tail : String → ℕ → Session → List Message
list_tail id n s = let ms = of_conversation id s.working.messages in drop (length ms - n) ms

abbrev turn_of : Message → String × String
turn_of m = (m.role, m.content)

unfoldable pub load_window : ℕ → String → Session → List (String × String)
load_window memory_window id s = map turn_of (list_tail id memory_window s)
