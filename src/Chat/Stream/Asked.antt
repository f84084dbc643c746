-- ===== src/Chat/Stream/Asked.antt =====
-- The window of a conversation that the model is asked on.
use inferspect.Prelude.{
  ℕ, zero, suc, ◌-◌, ◌≤◌, ◌≡◌, refl, ap, ◌∙◌, inl, inr, arith, String, List, [], ◌∷◌, ◌++◌, map,
  length, drop, length-append, length-drop, length-map, str_eq, eq_refl, Bool-cases,
}
use inferspect.Chat.Store.{
  Message, Session, bump_for_message, create_message, of_conversation, list_tail, load_window,
}
use inferspect.Chat.Stream.{Service, store_message, user_message}

drop-snoc {ℓ} :
    {A : Type ℓ} (k : ℕ) (xs : List A) (x : A)
    → k ≤ length xs
    → drop k (xs ++ x ∷ []) ≡ drop k xs ++ x ∷ []
drop-snoc zero xs x h = refl
drop-snoc (suc k) [] x h = ground arith
drop-snoc (suc k) (y ∷ xs) x h = drop-snoc k xs x (omega (arith, h))

map-snoc {ℓ κ} :
    {A : Type ℓ} {B : Type κ} (f : A → B) (xs : List A) (x : A)
    → map f (xs ++ x ∷ []) ≡ map f xs ++ f x ∷ []
map-snoc f [] x = refl
map-snoc f (y ∷ xs) x = ap (λ ys. f y ∷ ys) (map-snoc f xs x)

of_conversation-snoc :
    (ms : List Message) (m : Message)
    → of_conversation m.conversation_id (ms ++ m ∷ [])
      ≡ of_conversation m.conversation_id ms ++ m ∷ []
of_conversation-snoc [] m = rw (eq_refl m.conversation_id) refl
of_conversation-snoc (x ∷ ms) m = elim (Bool-cases (str_eq x.conversation_id m.conversation_id)) [
  | inl e ↦ rw (e, of_conversation-snoc ms m) refl
  | inr e ↦ rw (e, of_conversation-snoc ms m) refl
]

-- The model is asked on at most as many turns as the window has, and the last is the user's question.
pub load_window-asks :
    (service : Service) (conversation model content : String) (s : Session)
    → 1 ≤ service.memory_window
    → let asked = store_message service (user_message service conversation content) model s in
      let window = load_window service.memory_window conversation asked in
      (length window ≤ service.memory_window)
      × ((earlier : List (String × String)) × (window ≡ earlier ++ ("user", content) ∷ []))
unfolding load_window list_tail store_message create_message bump_for_message
load_window-asks service conversation model content s h =
    let m = user_message service conversation content in
    let before = of_conversation conversation s.working.messages in
    let n = service.memory_window in
    let turns : Message → String × String = λ x. (x.role, x.content) in
    let ms = before ++ m ∷ [] in
    let k = length ms - n in
    let room = length-append before (m ∷ []) in
    let most : length (map turns (drop k ms)) ≤ n =
      omega (arith, length-map turns (drop k ms), length-drop k ms) in
    let ending : map turns (drop k ms) ≡ map turns (drop k before) ++ turns m ∷ [] =
      ap (map turns) (drop-snoc k before m (omega (arith, room, h)))
      ∙ map-snoc turns (drop k before) m in
    rw (of_conversation-snoc s.working.messages m) (most, (map turns (drop k before), ending))
