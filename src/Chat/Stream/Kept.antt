-- ===== src/Chat/Stream/Kept.antt =====
-- What the client has seen of a stream and what is stored of it.
use inferspect.Prelude.{
  ℕ, ◌≡◌, ◌⊎◌, refl, sym, ap, ◌∙◌, inl, inr, String, Bool, true, false, Option, List, [], ◌∷◌, ◌++◌,
  str_eq, str_append, str_join, str_append_empty, str_append_assoc, eq_iff, Bool-cases,
  if◌then◌else◌,
}
use std.Path.{subst}
use inferspect.Chat.Registry.{Registry}
use inferspect.Chat.Store.{Message, Session, bump_for_message, create_message, load_window}
use inferspect.Chat.Models.{is_raw_model}
use inferspect.Chat.Stream.{
  Sse, start, delta, done, cancelled, Step, raw_text, on_chat_model_stream, on_tool_start,
  on_tool_end, other_event, meanwhile, Run, Ending, finished, interrupted, interrupted_storing,
  broken, Service, chunk_of, chunks_from, chunks, deltas, sent_for, or_text, with_callback,
  store_message, user_message, assistant_message, conclude, stream,
}

abbrev text_of_event : Sse → String
text_of_event (delta text) = text
text_of_event _ = ""

-- The text that the client shows.
abbrev pub shown : List Sse → String
shown [] = ""
shown (e ∷ es) = str_append (text_of_event e) (shown es)

-- Whether an event ends the stream.
abbrev pub ends : Sse → Bool
ends (done id request calls) = true
ends (cancelled id partial) = true
ends _ = false

abbrev pub endings : List Sse → List Sse
endings [] = []
endings (e ∷ es) = let rest = endings es in if ends e then e ∷ rest else rest

shown-append : (xs ys : List Sse) → shown (xs ++ ys) ≡ str_append (shown xs) (shown ys)
shown-append [] ys = refl
shown-append (x ∷ xs) ys =
    ap (str_append (text_of_event x)) (shown-append xs ys)
    ∙ sym (str_append_assoc (text_of_event x) (shown xs) (shown ys))

module _ (service : Service) where
  shown-deltas :
      (text : String) (es : List Sse) → shown (deltas text es) ≡ str_append text (shown es)
  shown-deltas text es = elim (Bool-cases (str_eq text "")) [
    | inl e ↦ let empty = (eq_iff text "").0 e in rw (e, empty) refl
    | inr e ↦ rw e refl
  ]

  join_chunks :
      (text : String) (ts : List String)
      → str_join (chunks_from text ts) ≡ str_append text (str_join ts)
  join_chunks text ts = elim (Bool-cases (str_eq text "")) [
    | inl e ↦ let empty = (eq_iff text "").0 e in rw (e, empty) refl
    | inr e ↦ rw e refl
  ]

  sent_for_shows : (steps : List Step) → shown (sent_for service steps) ≡ str_join (chunks steps)
  sent_for_shows [] = refl
  sent_for_shows (raw_text t ∷ steps) =
      rw
        (
          shown-deltas t (sent_for service steps),
          join_chunks t (chunks steps),
          sent_for_shows steps,
        )
        refl
  sent_for_shows (on_chat_model_stream c ∷ steps) =
      let t = chunk_of (on_chat_model_stream c) in
      rw
        (
          shown-deltas t (sent_for service steps),
          join_chunks t (chunks steps),
          sent_for_shows steps,
        )
        refl
  sent_for_shows (on_tool_start name input ∷ steps) = sent_for_shows steps
  sent_for_shows (on_tool_end name out ∷ steps) = sent_for_shows steps
  sent_for_shows (other_event ∷ steps) = sent_for_shows steps
  sent_for_shows (meanwhile f ∷ steps) = sent_for_shows steps

  deltas_go_on : (text : String) (es : List Sse) → endings es ≡ [] → endings (deltas text es) ≡ []
  deltas_go_on text es h = elim (Bool-cases (str_eq text "")) [ inl e ↦ rw e h | inr e ↦ rw e h ]

  sent_for_goes_on : (steps : List Step) → endings (sent_for service steps) ≡ []
  sent_for_goes_on [] = refl
  sent_for_goes_on (raw_text t ∷ steps) = deltas_go_on t _ (sent_for_goes_on steps)
  sent_for_goes_on (on_chat_model_stream c ∷ steps) =
      deltas_go_on (chunk_of (on_chat_model_stream c)) _ (sent_for_goes_on steps)
  sent_for_goes_on (on_tool_start name input ∷ steps) = sent_for_goes_on steps
  sent_for_goes_on (on_tool_end name out ∷ steps) = sent_for_goes_on steps
  sent_for_goes_on (other_event ∷ steps) = sent_for_goes_on steps
  sent_for_goes_on (meanwhile f ∷ steps) = sent_for_goes_on steps

  -- How a stream ends: with the whole text stored, with what there is of it stored, or with an exception.
  abbrev pub IsKept : String → List Message → List Sse → String → List Message → Type 0
  IsKept conversation asked last text messages =
      ((request : Option String) × (calls : List String) × (last
          ≡ done service.answer_id request calls ∷ [])
        × (messages ≡ asked ++ assistant_message service conversation text request "complete" ∷ []))
      ⊎ (((request : Option String) × (last ≡ cancelled service.answer_id text ∷ [])
            × (messages
                ≡ asked
                  ++ assistant_message service conversation
                      (or_text service text "(cancelled before any output)") request "cancelled"
                    ∷ []))
          ⊎ ((last ≡ []) × (messages ≡ asked)))

  conclude-IsKept :
      (ending : Ending) (conversation model : String) (run : Run) (s : Session)
      → s.committed ≡ s.working
      → let (last, s') = conclude service ending conversation model run s in
        IsKept conversation s.working.messages last
          (str_join (chunks run.steps))
          s'.committed.messages
  unfolding conclude store_message bump_for_message create_message
  conclude-IsKept finished conversation model run s h =
      inl (run.request_id, run.tool_calls, refl, refl)
  conclude-IsKept interrupted conversation model run s h =
      rw h (inr (inl (run.request_id, refl, refl)))
  conclude-IsKept interrupted_storing conversation model run s h =
      rw h (inr (inl (run.request_id, refl, refl)))
  conclude-IsKept broken conversation model run s h = rw h (inr (inr (refl, refl)))

  all_shown :
      (steps : List Step) (conversation : String) (asked : List Message) (last : List Sse)
      (text : String) (messages : List Message)
      → IsKept conversation asked last text messages
      → shown (sent_for service steps ++ last) ≡ str_join (chunks steps)
  all_shown steps conversation asked last text messages kept =
      let silent : shown last ≡ "" = elim kept [
        | inl (request, calls, e, stored) ↦ rw e refl
        | inr (inl (request, e, stored)) ↦ rw e refl
        | inr (inr (e, stored)) ↦ rw e refl
      ] in
      shown-append (sent_for service steps) last
      ∙ rw (silent, sent_for_shows steps, str_append_empty (str_join (chunks steps))) refl

  -- A stream starts with its start event and ends in one of three ways, with no event that ends it
  -- before. The question is stored; then either the whole text of the deltas is stored as a complete
  -- answer and `done` is the last event, or that text (or a note when it is empty) is stored as a cancelled
  -- answer and `cancelled` is the last event, or nothing more is stored and no event ends the stream.
  pub stream-IsKept :
      (conversation model : String) (task : ℕ) (content : String) (s : Session) (r : Registry)
      → let out = stream service conversation model task content s r in
        (provider : String) × (body : List Sse) × (last : List Sse) × (out.sent
          ≡ start conversation service.question_id model provider ∷ (body ++ last))
        × (endings body ≡ [])
        × IsKept conversation
            (s.working.messages ++ user_message service conversation content ∷ [])
            last
            (shown out.sent)
            out.session.committed.messages
  unfolding stream store_message bump_for_message create_message
  stream-IsKept conversation model task content s r =
      let asked = store_message service (user_message service conversation content) model s in
      let run =
        with_callback (is_raw_model model)
          (service.answer model (load_window service.memory_window conversation asked)) in
      let result = conclude service run.ending conversation model run asked in
      let kept = conclude-IsKept run.ending conversation model run asked refl in
      (
        _,
        sent_for service run.steps,
        result.0,
        refl,
        sent_for_goes_on run.steps,
        subst
            (λ text.
              IsKept conversation asked.working.messages result.0 text result.1.committed.messages)
            (sym (
              all_shown run.steps conversation asked.working.messages result.0 _
                result.1.committed.messages kept))
            kept,
      )
