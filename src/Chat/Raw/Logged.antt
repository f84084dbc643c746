-- ===== src/Chat/Raw/Logged.antt =====
-- What a chat with an instrumented client yields, and what is logged of it.
use inferspect.Prelude.{
  ℕ, ◌≡◌, refl, ap, sym, ◌∙◌, inl, inr, Bool-cases, String, true, Option, none, some, List, [], ◌∷◌,
  str_eq, eq_iff, str_append, str_join,
}
use inferspect.Value.{end}
use inferspect.Value.Codec.{Codec}
use inferspect.Sdk.Client.{truncate}
use inferspect.Sdk.Client.Context.{current_context, current_ctx_kwargs}
use inferspect.Sdk.Client.Span.{Ending}
use inferspect.Sdk.Client.Logger.{Exit}
use inferspect.Sdk.Openai.{Completion, Delta, Timing, streams, yielded}
use inferspect.Sdk.Openai.Traced.{contents, choice_text, create_streams, create_opening}
use inferspect.Chat.Models.{strip_raw_prefix}
use inferspect.Chat.Raw.{
  Request, call_of, deltas, stream_openai, delta_text, or_empty, context_ids, streamed_seen,
}

delta_text-choice : (choice : Option Delta) → delta_text choice ≡ choice_text choice
delta_text-choice none = refl
delta_text-choice (some d) = by_content d.content
  where
    by_content :
        (content : Option String)
        → or_empty content ≡ (elim content as (λ o. String) [ none ↦ "" | some s ↦ s ])
    by_content none = refl
    by_content (some s) = refl

-- The yielded texts and the observed texts are the same text.
deltas-join :
    (chunks : List (ℕ × Completion))
    → str_join (deltas (yielded chunks)) ≡ str_join (contents chunks)
deltas-join [] = refl
deltas-join ((t, r) ∷ rest) =
    let same = delta_text-choice r.choice in
    elim (Bool-cases (str_eq (delta_text r.choice) "")) [
      | inl blank ↦ rw blank (
          deltas-join rest
          ∙ ap (λ s. str_append s (str_join (contents rest)))
              (sym ((eq_iff (delta_text r.choice) "").0 blank) ∙ same))
      | inr filled ↦ rw filled (
          ap (str_append (delta_text r.choice)) (deltas-join rest)
          ∙ ap (λ s. str_append s (str_join (contents rest))) same)
    ]

-- A chat that streams from OpenAI's client gives its consumer the texts of the chunks and the exception
-- that ended them, if any. Its one log has the text that was given, truncated and redacted, the ids of the
-- request and the model without its prefix.
pub stream_openai_logged :
    (c : Codec) (redact : String → String) (q : Request) (started_at : ℕ) (timing : Timing)
    (e : Ending) (chunks : List (ℕ × Completion)) (left : Option Exit)
    → let (seen, log) = stream_openai c redact q started_at timing e (streams chunks left) in
      (seen.left ≡ left)
      × (seen.texts ≡ deltas (yielded chunks))
      × (log.output_preview ≡ redact (truncate (str_join seen.texts)))
      × (log.conversation_id ≡ q.conversation_id)
      × (log.user_id ≡ q.user_id)
      × (log.model ≡ strip_raw_prefix q.model)
unfolding stream_openai current_ctx_kwargs current_context context_ids
stream_openai_logged c redact q started_at timing e chunks left =
    let made = create_streams c redact (call_of q true) started_at end timing chunks left e in
    let kept =
      create_opening c redact (call_of q true) started_at end timing (streams chunks left) e in
    let seen = ap streamed_seen made.0 in
    (
      ap (λ s. s.left) seen,
      ap (λ s. s.texts) seen,
      made.1
          ∙ ap (λ s. redact (truncate s)) (sym (deltas-join chunks))
          ∙ ap (λ s. redact (truncate (str_join s.texts))) (sym seen),
      kept.0,
      kept.1,
      kept.2,
    )
