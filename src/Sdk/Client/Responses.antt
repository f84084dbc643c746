-- ===== src/Sdk/Client/Responses.antt =====
-- What a stream of chunks and the final response after it leave in a span.
use inferspect.Prelude.{
  ℕ, ◌≡◌, refl, sym, ap, ◌∙◌, String, Option, none, some, List, [], ◌∷◌, ◌++◌, str_append,
  str_append_empty, str_join,
}
use inferspect.Value.Codec.{Codec}
use inferspect.Sdk.Client.Chunk.{Message, chunk_text}
use inferspect.Sdk.Client.Span.{InferenceSpan, observe_chunk, set_response, with_text}
use inferspect.Sdk.Client.Logger.{SpanCall, respond, call_span, call_all}
use inferspect.Sdk.Client.Limits.{call_all-Keeps}
use inferspect.Sdk.Client.Streaming.{
  observed, texts, first_time, known_or, observed-Gathers, with_usage-output, with_usage-ttft,
  with_text-output, with_text-ttft,
}

-- `set_response`, where there is a final response.
abbrev pub final_calls : Option Message → List SpanCall
final_calls none = []
final_calls (some m) = respond m ∷ []

abbrev pub final_text : Codec → Option Message → String
final_text c none = ""
final_text c (some m) = chunk_text c m.body

pub call_all-append :
    (c : Codec) (xs ys : List SpanCall) (s : InferenceSpan)
    → call_all c (xs ++ ys) s ≡ call_all c ys (call_all c xs s)
unfolding call_all
call_all-append c [] ys s = refl
call_all-append c (x ∷ xs) ys s = call_all-append c xs ys (call_span c x s)

pub observed-append :
    (c : Codec) (xs ys : List (ℕ × Message)) (s : InferenceSpan)
    → call_all c (observed (xs ++ ys)) s ≡ call_all c (observed ys) (call_all c (observed xs) s)
unfolding call_all call_span
observed-append c [] ys s = refl
observed-append c ((t, m) ∷ xs) ys s = observed-append c xs ys (observe_chunk c t m s)

-- The text so far, then that of the chunks, then that of the response; the time of the first chunk.
pub record Collects (c : Codec) (chunks : List (ℕ × Message)) (final : Option Message)
    (s s' : InferenceSpan) : Type 0 where
  pub output :
      str_join s'.output_chunks
      ≡ str_append
          (str_append (str_join s.output_chunks) (str_join (texts c chunks)))
          (final_text c final)
  pub ttft : s'.ttft_ms ≡ known_or s.ttft_ms (first_time chunks)
  pub opening : s'.opening ≡ s.opening

final-output :
    (c : Codec) (m : Option Message) (s : InferenceSpan)
    → str_join (call_all c (final_calls m) s).output_chunks
      ≡ str_append (str_join s.output_chunks) (final_text c m)
unfolding set_response call_all call_span
final-output c none s = sym (str_append_empty (str_join s.output_chunks))
final-output c (some m) s =
    let text = chunk_text c m.body in
    ap str_join (with_usage-output m.usage (with_text text s)) ∙ with_text-output text s

final-ttft :
    (c : Codec) (m : Option Message) (s : InferenceSpan)
    → (call_all c (final_calls m) s).ttft_ms ≡ s.ttft_ms
unfolding set_response call_all call_span
final-ttft c none s = refl
final-ttft c (some m) s =
    let text = chunk_text c m.body in
    with_usage-ttft m.usage (with_text text s) ∙ with_text-ttft text s

pub stream-Collects :
    (c : Codec) (chunks : List (ℕ × Message)) (final : Option Message) (s : InferenceSpan)
    → Collects c chunks final s (call_all c (final_calls final) (call_all c (observed chunks) s))
stream-Collects c chunks final s =
    let g = observed-Gathers c chunks s in
    let streamed = call_all c (observed chunks) s in
    record {
      output = final-output c final streamed ∙ ap (λ t. str_append t (final_text c final)) g.output;
      ttft = final-ttft c final streamed ∙ g.ttft;
      opening =
          (call_all-Keeps c (final_calls final) streamed).opening
          ∙ (call_all-Keeps c (observed chunks) s).opening;
    }
