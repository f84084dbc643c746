-- ===== src/Chat/Conversations/Cancelled.antt =====
-- Who can cancel a conversation, and what that stops.
use inferspect.Prelude.{
  ◌≡◌, ◌⊎◌, ℕ, refl, ap, ◌∙◌, inl, inr, arith, String, true, Option, none, some, List, [], ◌∷◌, map,
  str_eq, eq_iff, Bool-cases, Option-cases,
}
use inferspect.Chat.Registry.{Registry}
use inferspect.Chat.Store.{
  Conversation, Session, commit, rollback, find, find_by_id, get_for_user, get_by_id, set_status,
  with_status,
}
use inferspect.Chat.Stream.{Service, refused, stream_send, prepare}
use inferspect.Chat.Conversations.{User, visible_to, cancel, settle, cancel_conversation}
use inferspect.Chat.Registry as Registry

find_is :
    (id user : String) (cs : List Conversation) (c : Conversation)
    → find id user cs ≡ some c
    → c.id ≡ id
find_is id user [] c h = cc
find_is id user (x ∷ cs) c h = ground (arith, find_is id user cs c, eq_iff x.id id)

find_by_id_is :
    (id : String) (cs : List Conversation) (c : Conversation)
    → find_by_id id cs ≡ some c
    → c.id ≡ id
find_by_id_is id [] c h = cc
find_by_id_is id (x ∷ cs) c h = ground (arith, find_by_id_is id cs c, eq_iff x.id id)

-- After the status is set, the conversation is still there.
stays :
    (id status : String) (cs : List Conversation) (c : Conversation)
    → find_by_id id cs ≡ some c
    → (c' : Conversation) × (find_by_id id (map (with_status id status) cs) ≡ some c')
stays id status [] c h = cc
stays id status (x ∷ cs) c h = elim (Bool-cases (str_eq x.id id)) [
  | inl e ↦ rw (e, e) (_, refl)
  | inr e ↦
      let inner : find_by_id id cs ≡ some c = ground arith in rw (e, e) (stays id status cs c inner)
]

owned_by_id :
    (id user : String) (cs : List Conversation) (c : Conversation)
    → find id user cs ≡ some c
    → (c' : Conversation) × (find_by_id id cs ≡ some c')
owned_by_id id user [] c h = cc
owned_by_id id user (x ∷ cs) c h = elim (Bool-cases (str_eq x.id id)) [
  | inl e ↦ rw e (x, refl)
  | inr e ↦
      let inner : find id user cs ≡ some c = ground arith in rw e (owned_by_id id user cs c inner)
]

find-with_status :
    (id status user : String) (cs : List Conversation) (c : Conversation)
    → find id user (map (with_status id status) cs) ≡ some c
    → c.status ≡ status
find-with_status id status user [] c h = cc
find-with_status id status user (x ∷ cs) c h =
    let later = find-with_status id status user cs c in
    elim (Bool-cases (str_eq x.id id)) [
      | inl e ↦ elim (Bool-cases (str_eq x.user_id user)) [
        | inl u ↦ ground (arith, e, u, h)
        | inr u ↦ ground (arith, e, u, h, later)
      ]
      | inr e ↦ ground (arith, e, h, later)
    ]

visible_is_there :
    (user : User) (id : String) (s : Session) (c : Conversation)
    → visible_to user id s ≡ some c
    → (c.id ≡ id) × ((c' : Conversation) × (find_by_id id s.working.conversations ≡ some c'))
unfolding visible_to get_for_user get_by_id
visible_is_there user id s c h =
    let cs = s.working.conversations in
    elim (Option-cases (find id user.id cs)) [
      | inr (o, own) ↦
          let same : o ≡ c = ground arith in
          (find_is id user.id cs c (own ∙ ap some same), owned_by_id id user.id cs o own)
      | inl none_own ↦ elim (Bool-cases (str_eq user.role "admin")) [
        | inl admin ↦
            let found : find_by_id id cs ≡ some c = ground arith in
            (find_by_id_is id cs c found, (c, found))
        | inr plain ↦ ground arith
      ]
    ]

-- A conversation whose status is cancelled is streamed on no more.
stream_send_refuses :
    (service : Service) (id asker : String) (task : ℕ) (content : String) (model : Option String)
    (s : Session) (r : Registry)
    → let s' = commit (set_status id "cancelled" s) in
      (code : ℕ) × (detail : String) × (stream_send service asker (some id) task content model s' r
        ≡ refused code detail)
unfolding stream_send prepare get_for_user set_status
stream_send_refuses service id asker task content model s r =
    elim (Option-cases (find id asker (map (with_status id "cancelled") s.working.conversations))) [
      | inl e ↦ rw (stream_send, e) (_, _, refl)
      | inr (c, e) ↦
          let ended = find-with_status id "cancelled" asker s.working.conversations c e in
          let stopped : str_eq c.status "cancelled" ≡ true =
            (eq_iff c.status "cancelled").1 ended in
          rw (stream_send, e, stopped) (_, _, refl)
    ]

cancel_conversation_hidden :
    (user : User) (id : String) (s : Session) (r : Registry)
    → visible_to user id s ≡ none
    → cancel_conversation user id s r ≡ (none, rollback s, (Registry.cancel id r).1)
unfolding cancel_conversation cancel
cancel_conversation_hidden user id s r hidden =
    let none_left : cancel user id s ≡ (none, s) = rw (cancel, hidden) refl in
    ap (λ p. ((settle p).0, (settle p).1, (Registry.cancel id r).1)) none_left

cancel_conversation_seen :
    (user : User) (id : String) (s : Session) (r : Registry) (c : Conversation)
    → visible_to user id s ≡ some c
    → (shown : Conversation) × (cancel_conversation user id s r
        ≡ (some shown, commit (set_status id "cancelled" s), (Registry.cancel id r).1))
unfolding cancel_conversation cancel set_status get_by_id
cancel_conversation_seen user id s r c seen =
    let (same, (c', there)) = visible_is_there user id s c seen in
    let (shown, left) = stays id "cancelled" s.working.conversations c' there in
    let done : cancel user id s ≡ (some shown, set_status id "cancelled" s) =
      rw (cancel, seen, same, left) refl in
    (shown, ap (λ p. ((settle p).0, (settle p).1, (Registry.cancel id r).1)) done)

-- The cancel route cancels the conversation's task whoever asks. For a conversation that the user
-- cannot see it answers 404 and the database stays as it is; otherwise it answers, and no user's
-- stream on the conversation is accepted after it.
pub cancel_conversation_stops :
    (service : Service) (user : User) (id : String) (s : Session) (r : Registry)
    → let (reply, s', r') = cancel_conversation user id s r in
      (r' ≡ (Registry.cancel id r).1)
      × (((visible_to user id s ≡ none) × (reply ≡ none) × (s'.committed ≡ s.committed))
          ⊎ ((c : Conversation) × (shown : Conversation) × (visible_to user id s ≡ some c)
              × (reply ≡ some shown)
              × ((asker : String) (task : ℕ) (content : String) (model : Option String)
                    (later : Registry)
                  → (code : ℕ) × (detail : String) × (stream_send service asker
                        (some id)
                        task
                        content
                        model
                        s'
                        later
                      ≡ refused code detail))))
cancel_conversation_stops service user id s r = elim (Option-cases (visible_to user id s)) [
  | inl hidden ↦
      rw (cancel_conversation_hidden user id s r hidden, hidden) (refl, inl (refl, refl, refl))
  | inr (c, seen) ↦
      let (shown, whole) = cancel_conversation_seen user id s r c seen in
      rw (whole, seen)
        (
          refl,
          inr (
            c,
            shown,
            refl,
            refl,
            λ asker task content model later.
                stream_send_refuses service id asker task content model s later,
          ),
        )
]
