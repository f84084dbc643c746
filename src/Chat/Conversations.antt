-- ===== src/Chat/Conversations.antt =====
-- apps/chat-service/chat_service/services/conversation_service.py and the cancel route of
-- controllers/conversation_controller.py. `none` is the 404; a session is committed after a request
-- that succeeds and rolled back after one that does not.
pub mod Cancelled
use inferspect.Prelude.{String, Option, none, some, List, str_eq, if◌then◌else◌}
use inferspect.Chat.Registry as Registry
use inferspect.Chat.Store.{
  Message, Conversation, Session, commit, rollback, get_for_user, get_by_id, set_status,
  list_for_conversation,
}

pub record User : Type 0 where
  pub id : String
  pub role : String

abbrev pub for_admin : String → String → Session → Option Conversation
for_admin role id s = if str_eq role "admin" then get_by_id id s else none

-- `ConversationService.get_for_user`
unfoldable pub visible_to : User → String → Session → Option Conversation
visible_to user id s = elim (get_for_user id user.id s) [
  | some c ↦ some c
  | none ↦ for_admin user.role id s
]

unfoldable pub transcript : User → String → Session → Option (Conversation × List Message)
transcript user id s = elim (visible_to user id s) [
  | none ↦ none
  | some c ↦ some (c, list_for_conversation c.id s)
]

-- `session.refresh`
abbrev pub refreshed : String → Session → Option Conversation × Session
refreshed id s = (get_by_id id s, s)

-- `ConversationService.cancel`
unfoldable pub cancel : User → String → Session → Option Conversation × Session
cancel user id s = elim (visible_to user id s) [
  | none ↦ (none, s)
  | some c ↦ refreshed c.id (set_status c.id "cancelled" s)
]

abbrev pub settle : Option Conversation × Session → Option Conversation × Session
settle (none, s) = (none, rollback s)
settle (some c, s) = (some c, commit s)

-- POST /conversations/{id}/cancel
unfoldable pub cancel_conversation :
    User → String → Session → Registry.Registry → Option Conversation × Session × Registry.Registry
cancel_conversation user id s r =
    let (found, r') = Registry.cancel id r in
    let (reply, s') = settle (cancel user id s) in (reply, s', r')
