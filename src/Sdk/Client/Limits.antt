-- ===== src/Sdk/Client/Limits.antt =====
-- The limits of the log that a span submits.
use inferspect.Prelude.{
  ℕ, ◌+◌, ◌≤◌, ◌≡◌, refl, ◌∙◌, ap, String, Bool, true, false, Option, none, some, List, [], ◌∷◌,
  arith, length, str_len, str_take, str_append, str_len-append, str_len-take-le, inl, inr,
  Bool-cases, leb, if◌then◌else◌, str_eq, str_join,
}
use inferspect.Value.{Fields}
use inferspect.Value.Codec.{Codec}
use inferspect.Sdk.Schema.{Status}
use inferspect.Sdk.Client.{truncate, preview_max}
use inferspect.Sdk.Client.Span.{
  Opening, InferenceSpan, Ending, open_span, observe_chunk, set_response, finalize, with_usage,
  with_text, first_of, code_of,
}
use inferspect.Sdk.Client.Chunk.{Usage, chunk_text}
use inferspect.Sdk.Client.Logger.{
  Exit, status_of, error_of, returned, interrupted, cancelled, timed_out, failed, SpanCall, observe,
  respond, output, tokens, cost, finish, meta, call_span, call_all, inference_log,
}

cut_short :
    (n : ℕ) (s : String)
    → str_len (if leb (str_len s) n then s else str_append (str_take n s) "…") ≤ n + 1
cut_short n s = elim (Bool-cases (leb (str_len s) n)) [
  | inl e ↦ rw e (ground arith)
  | inr e ↦ rw e (omega (arith, str_len-append (str_take n s) "…", str_len-take-le n s))
]

-- A truncated text has at most 500 characters and the ellipsis.
truncate_short : (s : String) → str_len (truncate s) ≤ preview_max + 1
unfolding truncate
truncate_short s = elim (Bool-cases (str_eq s "")) [
  | inl e ↦ rw e (omega arith)
  | inr e ↦ rw e (cut_short preview_max s)
]

-- What no method of a span changes.
pub record Keeps (s s' : InferenceSpan) : Type 0 where
  pub opening : s'.opening ≡ s.opening
  started_at : s'.started_at ≡ s.started_at
  input_preview : s'.input_preview ≡ s.input_preview

with_text-Keeps : (t : String) (s : InferenceSpan) → Keeps s (with_text t s)
with_text-Keeps t s = elim (Bool-cases (str_eq t "")) [
  | inl e ↦ record {
    opening = ground arith;
    started_at = ground arith;
    input_preview = ground arith;
  }
  | inr e ↦ record {
    opening = ground arith;
    started_at = ground arith;
    input_preview = ground arith;
  }
]

then_usage : (u : Option Usage) (s s' : InferenceSpan) → Keeps s s' → Keeps s (with_usage u s')
then_usage none s s' k = k
then_usage (some u) s s' k = record {
  opening = k.opening;
  started_at = k.started_at;
  input_preview = k.input_preview;
}

call_span-Keeps : (c : Codec) (call : SpanCall) (s : InferenceSpan) → Keeps s (call_span c call s)
unfolding call_span observe_chunk set_response
call_span-Keeps c (observe elapsed m) s =
    let s1 = record s { ttft_ms = first_of s.ttft_ms elapsed } in
    let text = with_text-Keeps (chunk_text c m.body) s1 in
    let kept : Keeps s (with_text (chunk_text c m.body) s1) = record {
      opening = text.opening;
      started_at = text.started_at;
      input_preview = text.input_preview;
    } in
    let k = then_usage m.usage s (with_text (chunk_text c m.body) s1) kept in
    record { opening = k.opening; started_at = k.started_at; input_preview = k.input_preview }
call_span-Keeps c (respond m) s =
    let k =
      then_usage m.usage s (with_text (chunk_text c m.body) s)
        (with_text-Keeps (chunk_text c m.body) s) in
    record { opening = k.opening; started_at = k.started_at; input_preview = k.input_preview }
call_span-Keeps c (output text) s = record {
  opening = refl;
  started_at = refl;
  input_preview = refl;
}
call_span-Keeps c (tokens p q) s = record {
  opening = refl;
  started_at = refl;
  input_preview = refl;
}
call_span-Keeps c (cost usd) s = record { opening = refl; started_at = refl; input_preview = refl }
call_span-Keeps c (finish reason) s = record {
  opening = refl;
  started_at = refl;
  input_preview = refl;
}
call_span-Keeps c (meta kwargs) s = record {
  opening = refl;
  started_at = refl;
  input_preview = refl;
}

pub call_all-Keeps :
    (c : Codec) (calls : List SpanCall) (s : InferenceSpan) → Keeps s (call_all c calls s)
unfolding call_all
call_all-Keeps c [] s = record { opening = refl; started_at = refl; input_preview = refl }
call_all-Keeps c (call ∷ calls) s =
    let first = call_span-Keeps c call s in
    let later = call_all-Keeps c calls (call_span c call s) in
    record {
      opening = later.opening ∙ first.opening;
      started_at = later.started_at ∙ first.started_at;
      input_preview = later.input_preview ∙ first.input_preview;
    }

abbrev pub is_ok : Status → Bool
is_ok Status.ok = true
is_ok _ = false

abbrev pub is_missing {ℓ} : {A : Type ℓ} → Option A → Bool
is_missing none = true
is_missing (some x) = false

exit_reports : (exit : Exit) → is_ok (status_of exit) ≡ is_missing (code_of (error_of exit))
exit_reports returned = refl
exit_reports interrupted = refl
exit_reports (cancelled e) = refl
exit_reports (timed_out e) = refl
exit_reports (failed e) = refl

-- Whatever methods are called on a span, however its block is left and whatever the redactor is, the log
-- has the request id of the opening, as its input the redactor's answer to the truncated input of the
-- opening and as its output the redactor's answer to a text, both of at most 501 characters before they
-- are redacted, totals that agree with their parts, a finish reason, and an error code exactly if its
-- status is not ok.
pub log_limits :
    (c : Codec) (redact : String → String) (opening : Opening) (started_at : ℕ) (input : String)
    (metadata : Fields) (calls : List SpanCall) (exit : Exit) (e : Ending)
    → let log = inference_log c redact opening started_at input metadata calls exit e in
      (log.request_id ≡ opening.request_id)
      × (log.input_preview ≡ redact (truncate input))
      × (str_len (truncate input) ≤ preview_max + 1)
      × ((shown : String) × (log.output_preview ≡ redact shown) × (str_len shown ≤ preview_max + 1))
      × (log.total_tokens ≡ log.prompt_tokens + log.completion_tokens)
      × (log.tool_calls_count ≡ length log.tool_calls_summary)
      × (is_missing log.finish_reason ≡ false)
      × (is_ok log.status ≡ is_missing log.error_code)
unfolding inference_log finalize open_span
log_limits c redact opening started_at input metadata calls exit e =
    let s = open_span opening started_at input metadata in
    let k = call_all-Keeps c calls s in
    let same : (call_all c calls s).input_preview ≡ truncate input = k.input_preview in
    (
      ap (λ (o : Opening). o.request_id) k.opening,
      ap redact same,
      truncate_short input,
      (
        truncate (str_join (call_all c calls s).output_chunks),
        refl,
        truncate_short (str_join (call_all c calls s).output_chunks),
      ),
      refl,
      refl,
      refl,
      exit_reports exit,
    )
