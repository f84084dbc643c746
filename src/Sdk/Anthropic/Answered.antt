-- ===== src/Sdk/Anthropic/Answered.antt =====
-- What is logged of an answer of the Anthropic client.
use inferspect.Prelude.{
  ℕ, ◌≡◌, refl, ap, sym, ◌∙◌, inl, inr, String, Bool-cases, Option, none, some, List, [], str_eq,
  eq_iff, str_join, str_append_empty,
}
use inferspect.Value.{Value, Fields}
use inferspect.Value.Codec.{Codec}
use inferspect.Sdk.Schema.{Status}
use inferspect.Sdk.Client.{truncate}
use inferspect.Sdk.Client.Span.{
  Opening, InferenceSpan, Ending, open_span, with_text, with_usage, set_response, finalize,
}
use inferspect.Sdk.Client.Chunk.{Usage, chunk_text}
use inferspect.Sdk.Client.Logger.{call_span, call_all, inference_log}
use inferspect.Sdk.Openai.{last_user_text}
use inferspect.Sdk.Anthropic.{Reply, blocks_text, answers, normalize_response, wrapper, create}

with_usage-chunks :
    (u : Option Usage) (s : InferenceSpan) → (with_usage u s).output_chunks ≡ s.output_chunks
with_usage-chunks none s = refl
with_usage-chunks (some u) s = refl

with_usage-opening : (u : Option Usage) (s : InferenceSpan) → (with_usage u s).opening ≡ s.opening
with_usage-opening none s = refl
with_usage-opening (some u) s = refl

with_text-opening : (text : String) (s : InferenceSpan) → (with_text text s).opening ≡ s.opening
with_text-opening text s = elim (Bool-cases (str_eq text "")) [
  | inl e ↦ rw e refl
  | inr e ↦ rw e refl
]

with_text-join :
    (text : String) (s : InferenceSpan)
    → s.output_chunks ≡ []
    → str_join (with_text text s).output_chunks ≡ text
with_text-join text s h = elim (Bool-cases (str_eq text "")) [
  | inl e ↦ let empty = (eq_iff text "").0 e in rw (e, h) (sym empty)
  | inr e ↦ rw (e, h) (str_append_empty text)
]

-- The log of a call that is answered has the text of the answer's text blocks in order, truncated and
-- redacted, the provider `anthropic` and the status ok.
pub create-answers :
    (c : Codec) (redact : String → String) (opening : Opening) (messages : List Value)
    (started_at : ℕ) (metadata timing : Fields) (reply : Reply) (e : Ending)
    → let log = create c redact opening messages started_at metadata timing (answers reply) e in
      (log.output_preview ≡ redact (truncate (blocks_text reply.content)))
      × (log.provider ≡ "anthropic")
      × (log.status ≡ Status.ok)
unfolding create wrapper inference_log call_all call_span open_span finalize set_response
    normalize_response chunk_text
create-answers c redact opening messages started_at metadata timing reply e =
    let text = blocks_text reply.content in
    let usage = (normalize_response reply).usage in
    let s =
      open_span (record opening { provider = "anthropic" }) started_at (last_user_text c messages)
        metadata in
    (
      ap (λ ts. redact (truncate (str_join ts))) (with_usage-chunks usage (with_text text s))
          ∙ ap (λ t. redact (truncate t)) (with_text-join text s refl),
      ap (λ o. o.provider) (with_usage-opening usage (with_text text s) ∙ with_text-opening text s),
      refl,
    )
