-- ===== src/Chat/Stream/Counted.antt =====
-- `message_count` of a conversation and the messages that it has.
use inferspect.Prelude.{
  ℕ, ◌+◌, ◌≡◌, refl, sym, ap, inl, inr, arith, String, true, Option, none, some, List, [], ◌∷◌,
  ◌++◌, map, length, All, str_eq, eq_iff, Bool-cases, if◌then◌else◌,
}
use std.Path.{subst}
use inferspect.Chat.Registry.{Registry}
use inferspect.Chat.Store.{
  Message, Conversation, Db, Session, rollback, create_conversation, get_for_user, bump,
  bump_for_message, create_message, of_conversation, load_window,
}
use inferspect.Chat.Models.{is_raw_model}
use inferspect.Chat.Stream.{
  Run, Ending, finished, interrupted, interrupted_storing, broken, Service, with_callback, Prepared,
  ready, http_error, Streamed, Reply, refused, streamed, store_message, user_message, conclude,
  resolved, prepare, reply_for, stream, stream_send,
}

abbrev pub IsRight : List Message → Conversation → Type 0
IsRight ms c = c.message_count ≡ length (of_conversation c.id ms)

-- Every conversation counts its messages.
abbrev pub IsCounted : Db → Type 0
IsCounted db = All (IsRight db.messages) db.conversations

-- The session of what is prepared.
abbrev pub session_of : Prepared → Session → Session
session_of (ready c model s') s = s'
session_of (http_error code detail) s = s

abbrev streamed_or : Streamed → Reply → Streamed
streamed_or out (streamed o) = o
streamed_or out (refused code detail) = out

length-of_conversation-snoc :
    (id : String) (ms : List Message) (m : Message)
    → length (of_conversation id (ms ++ m ∷ []))
      ≡ length (of_conversation id ms) + (if str_eq m.conversation_id id then 1 else 0)
length-of_conversation-snoc id [] m = ground arith
length-of_conversation-snoc id (x ∷ ms) m = ground (arith, length-of_conversation-snoc id ms m)

bump-IsRight :
    (ms : List Message) (m : Message) (model : String) (c : Conversation)
    → IsRight ms c
    → IsRight (ms ++ m ∷ []) (bump m.conversation_id (some model) c)
bump-IsRight ms m model c h =
    let more = length-of_conversation-snoc c.id ms m in
    elim (Bool-cases (str_eq c.id m.conversation_id)) [
      | inl e ↦
          let same = (eq_iff c.id m.conversation_id).0 e in
          let e' : str_eq m.conversation_id c.id ≡ true =
            (eq_iff m.conversation_id c.id).1 (sym same) in
          rw e (ground (arith, h, more, e'))
      | inr e ↦
          rw e (
            ground
              (arith, h, more, e, eq_iff c.id m.conversation_id, eq_iff m.conversation_id c.id))
    ]

bump-All-IsRight :
    (ms : List Message) (m : Message) (model : String) (cs : List Conversation)
    → All (IsRight ms) cs
    → All (IsRight (ms ++ m ∷ [])) (map (bump m.conversation_id (some model)) cs)
bump-All-IsRight ms m model [] hs = tt
bump-All-IsRight ms m model (c ∷ cs) hs =
    (bump-IsRight ms m model c hs.0, bump-All-IsRight ms m model cs hs.1)

snoc-IsRight :
    (ms : List Message) (cs : List Conversation) (c : Conversation)
    → All (IsRight ms) cs
    → IsRight ms c
    → All (IsRight ms) (cs ++ c ∷ [])
snoc-IsRight ms [] c hs h = (h, tt)
snoc-IsRight ms (x ∷ cs) c hs h = (hs.0, snoc-IsRight ms cs c hs.1 h)

module _ (service : Service) where
  store_message-IsCounted :
      (m : Message) (model : String) (s : Session)
      → IsCounted s.working
      → IsCounted (store_message service m model s).committed
  unfolding store_message bump_for_message create_message
  store_message-IsCounted m model s h =
      bump-All-IsRight s.working.messages m model s.working.conversations h

  conclude-IsCounted :
      (ending : Ending) (conversation model : String) (run : Run) (s : Session)
      → s.committed ≡ s.working
      → IsCounted s.working
      → IsCounted (conclude service ending conversation model run s).1.committed
  unfolding conclude create_message
  conclude-IsCounted finished conversation model run s same h = store_message-IsCounted _ model s h
  conclude-IsCounted interrupted conversation model run s same h =
      store_message-IsCounted _ model (rollback s) (rw same h)
  conclude-IsCounted interrupted_storing conversation model run s same h =
      store_message-IsCounted _ model (rollback s) (rw same h)
  conclude-IsCounted broken conversation model run s same h = rw same h

  pub resolved_session :
      (model : Option String) (found : Option Conversation) (s : Session)
      → session_of (resolved service model found s) s ≡ s
  resolved_session model none s = refl
  resolved_session model (some c) s = elim (Bool-cases (str_eq c.status "cancelled")) [
    | inl e ↦ rw e refl
    | inr e ↦ rw e refl
  ]

  prepare-IsCounted :
      (user : String) (conversation model : Option String) (s : Session)
      → of_conversation service.conversation_id s.working.messages ≡ []
      → IsCounted s.working
      → IsCounted (session_of (prepare service user conversation model s) s).working
  unfolding prepare create_conversation
  prepare-IsCounted user none model s fresh h =
      snoc-IsRight s.working.messages s.working.conversations _ h (rw fresh refl)
  prepare-IsCounted user (some id) model s fresh h =
      rw (resolved_session model (get_for_user id user s) s) h

  reply_for-IsCounted :
      (p : Prepared) (task : ℕ) (content : String) (s : Session) (r : Registry) (out : Streamed)
      → IsCounted (session_of p s).working
      → reply_for service p task content r ≡ streamed out
      → IsCounted out.session.committed
  unfolding stream store_message
  reply_for-IsCounted (http_error code detail) task content s r out h e = cc
  reply_for-IsCounted (ready c model s') task content s r out h e =
      let asked = store_message service (user_message service c.id content) model s' in
      let run =
        with_callback (is_raw_model model)
          (service.answer model (load_window service.memory_window c.id asked)) in
      subst (λ o. IsCounted o.session.committed) (ap (streamed_or out) e)
        (conclude-IsCounted run.ending c.id model run asked refl
          (store_message-IsCounted (user_message service c.id content) model s' h))

  -- A stream keeps every conversation's count the number of its messages, however it ends, when no
  -- message belongs to the id that a new conversation gets.
  pub stream_send-IsCounted :
      (user : String) (conversation : Option String) (task : ℕ) (content : String)
      (model : Option String) (s : Session) (r : Registry) (out : Streamed)
      → of_conversation service.conversation_id s.working.messages ≡ []
      → IsCounted s.working
      → stream_send service user conversation task content model s r ≡ streamed out
      → IsCounted out.session.committed
  unfolding stream_send
  stream_send-IsCounted user conversation task content model s r out fresh h e =
      reply_for-IsCounted (prepare service user conversation model s) task content s r out
        (prepare-IsCounted user conversation model s fresh h) e
