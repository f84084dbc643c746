-- ===== src/Sdk/Client/Streaming.antt =====
-- What a span gathers from a stream of chunks.
use inferspect.Prelude.{
  ℕ, ◌≡◌, refl, sym, ap, ◌∙◌, String, Bool, true, false, not, ◌&&◌, ◌||◌, Option, none, some, List,
  [], ◌∷◌, ◌++◌, arith, inl, inr, Bool-cases, str_eq, eq_iff, str_append, str_append_empty,
  str_append_assoc, str_join, str_join-snoc, if◌then◌else◌,
}
use inferspect.Value.{Fields}
use inferspect.Value.Codec.{Codec}
use inferspect.Sdk.Schema.{ToolCallSummary}
use inferspect.Sdk.Client.{truncate}
use inferspect.Sdk.Client.Chunk.{Usage, ToolCall, Message, chunk_text}
use inferspect.Sdk.Client.Span.{
  Opening, InferenceSpan, Ending, open_span, with_usage, with_text, has_name, name_or_empty,
  args_text, first_of, add_tool_chunks, observe_chunk, finalize,
}
use inferspect.Sdk.Client.Logger.{Exit, SpanCall, observe, call_span, call_all, inference_log}

-- A stream: each chunk with the milliseconds since the start.
abbrev pub observed : List (ℕ × Message) → List SpanCall
observed [] = []
observed ((t, m) ∷ stream) = observe t m ∷ observed stream

abbrev pub texts : Codec → List (ℕ × Message) → List String
texts c [] = []
texts c ((t, m) ∷ stream) = chunk_text c m.body ∷ texts c stream

abbrev pub first_time : List (ℕ × Message) → Option ℕ
first_time [] = none
first_time ((t, m) ∷ stream) = some t

-- No two tool calls have the same name.
abbrev pub distinct : List ToolCallSummary → Bool
distinct [] = true
distinct (t ∷ ts) = not (has_name t.name ts) && distinct ts

has_name-snoc :
    (name : String) (ts : List ToolCallSummary) (t : ToolCallSummary)
    → has_name name (ts ++ t ∷ []) ≡ (has_name name ts || str_eq t.name name)
has_name-snoc name [] t = ground arith
has_name-snoc name (u ∷ ts) t = ground (arith, has_name-snoc name ts t)

distinct-snoc :
    (ts : List ToolCallSummary) (t : ToolCallSummary)
    → distinct ts ≡ true
    → has_name t.name ts ≡ false
    → distinct (ts ++ t ∷ []) ≡ true
distinct-snoc [] t d h = refl
distinct-snoc (u ∷ ts) t d h = ground (
  arith,
  distinct-snoc ts t,
  has_name-snoc u.name ts t,
  eq_iff t.name u.name,
  eq_iff u.name t.name,
)

add_one-distinct :
    (known : List ToolCallSummary) (t : ToolCallSummary) (unnamed : Bool)
    → distinct known ≡ true
    → distinct (if not unnamed && not (has_name t.name known) then known ++ t ∷ [] else known)
      ≡ true
add_one-distinct known t unnamed d = ground (arith, distinct-snoc known t d)

add_tool_chunks-distinct :
    (c : Codec) (tcs : List ToolCall) (known : List ToolCallSummary)
    → distinct known ≡ true
    → distinct (add_tool_chunks c tcs known) ≡ true
unfolding add_tool_chunks
add_tool_chunks-distinct c [] known d = d
add_tool_chunks-distinct c (tc ∷ tcs) known d = add_tool_chunks-distinct c tcs _ (
    add_one-distinct known
      (record { name = name_or_empty tc.name; args_preview = truncate (args_text c tc.args) })
      (str_eq (name_or_empty tc.name) "") d)

pub with_usage-output :
    (u : Option Usage) (s : InferenceSpan) → (with_usage u s).output_chunks ≡ s.output_chunks
with_usage-output none s = refl
with_usage-output (some u) s = refl

pub with_usage-ttft : (u : Option Usage) (s : InferenceSpan) → (with_usage u s).ttft_ms ≡ s.ttft_ms
with_usage-ttft none s = refl
with_usage-ttft (some u) s = refl

with_usage-tools :
    (u : Option Usage) (s : InferenceSpan) → (with_usage u s).tool_calls ≡ s.tool_calls
with_usage-tools none s = refl
with_usage-tools (some u) s = refl

pub with_text-output :
    (t : String) (s : InferenceSpan)
    → str_join (with_text t s).output_chunks ≡ str_append (str_join s.output_chunks) t
with_text-output t s = elim (Bool-cases (str_eq t "")) [
  | inl e ↦ rw e (
      sym (str_append_empty (str_join s.output_chunks))
      ∙ ap (str_append (str_join s.output_chunks)) (sym ((eq_iff t "").0 e)))
  | inr e ↦ rw e (str_join-snoc s.output_chunks t)
]

pub with_text-ttft : (t : String) (s : InferenceSpan) → (with_text t s).ttft_ms ≡ s.ttft_ms
with_text-ttft t s = elim (Bool-cases (str_eq t "")) [ inl e ↦ rw e refl | inr e ↦ rw e refl ]

with_text-tools : (t : String) (s : InferenceSpan) → (with_text t s).tool_calls ≡ s.tool_calls
with_text-tools t s = elim (Bool-cases (str_eq t "")) [ inl e ↦ rw e refl | inr e ↦ rw e refl ]

-- A time that is already known stays.
abbrev pub known_or : Option ℕ → Option ℕ → Option ℕ
known_or none later = later
known_or (some t) later = some t

first_known : (o : Option ℕ) (t : ℕ) → first_of o t ≡ known_or o (some t)
first_known none t = refl
first_known (some u) t = refl

known_none : (o : Option ℕ) → o ≡ known_or o none
known_none none = refl
known_none (some t) = refl

known_again : (o a b : Option ℕ) → known_or (known_or o a) b ≡ known_or o (known_or a b)
known_again none a b = refl
known_again (some t) a b = refl

-- What a stream adds to a span.
pub record Gathers (c : Codec) (stream : List (ℕ × Message)) (s s' : InferenceSpan) : Type 0 where
  pub output :
      str_join s'.output_chunks ≡ str_append (str_join s.output_chunks) (str_join (texts c stream))
  pub ttft : s'.ttft_ms ≡ known_or s.ttft_ms (first_time stream)
  pub tools : distinct s.tool_calls ≡ true → distinct s'.tool_calls ≡ true

observe-Gathers :
    (c : Codec) (t : ℕ) (m : Message) (s : InferenceSpan)
    → Gathers c ((t, m) ∷ []) s (observe_chunk c t m s)
unfolding observe_chunk
observe-Gathers c t m s =
    let text = chunk_text c m.body in
    let s1 = record s { ttft_ms = first_of s.ttft_ms t } in
    let s2 = with_text text s1 in
    record {
      output =
          ap str_join (with_usage-output m.usage s2)
          ∙ with_text-output text s1
          ∙ ap (str_append (str_join s.output_chunks)) (sym (str_append_empty text));
      ttft = with_usage-ttft m.usage s2 ∙ with_text-ttft text s1 ∙ first_known s.ttft_ms t;
      tools = λ d.
          add_tool_chunks-distinct c m.calls (with_usage m.usage s2).tool_calls
            (ap distinct (with_usage-tools m.usage s2 ∙ with_text-tools text s1) ∙ d);
    }

pub observed-Gathers :
    (c : Codec) (stream : List (ℕ × Message)) (s : InferenceSpan)
    → Gathers c stream s (call_all c (observed stream) s)
unfolding call_all call_span
observed-Gathers c [] s = record {
  output = sym (str_append_empty (str_join s.output_chunks));
  ttft = known_none s.ttft_ms;
  tools = λ d. d;
}
observed-Gathers c ((t, m) ∷ stream) s =
    let one = observe-Gathers c t m s in
    let more = observed-Gathers c stream (observe_chunk c t m s) in
    let text = chunk_text c m.body in
    let sofar = str_join s.output_chunks in
    record {
      output =
          more.output
          ∙ ap (λ r. str_append r (str_join (texts c stream))) one.output
          ∙ ap (λ r. str_append (str_append sofar r) (str_join (texts c stream)))
              (str_append_empty text)
          ∙ str_append_assoc sofar text (str_join (texts c stream));
      ttft =
          more.ttft
          ∙ ap (λ o. known_or o (first_time stream)) one.ttft
          ∙ known_again s.ttft_ms (some t) (first_time stream);
      tools = λ d. more.tools (one.tools d);
    }

-- When a block only observes a stream of chunks, its log has the truncated text of all chunks in
-- their order, redacted, the time of the first chunk, and no two tool calls of the same name.
pub stream_log :
    (c : Codec) (redact : String → String) (opening : Opening) (started_at : ℕ) (input : String)
    (metadata : Fields) (stream : List (ℕ × Message)) (exit : Exit) (e : Ending)
    → let log = inference_log c redact opening started_at input metadata (observed stream) exit e in
      (log.output_preview ≡ redact (truncate (str_join (texts c stream))))
      × (log.ttft_ms ≡ first_time stream)
      × (distinct log.tool_calls_summary ≡ true)
unfolding inference_log finalize open_span
stream_log c redact opening started_at input metadata stream exit e =
    let g = observed-Gathers c stream (open_span opening started_at input metadata) in
    (ap (λ t. redact (truncate t)) g.output, g.ttft, g.tools refl)
