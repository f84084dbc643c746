-- ===== src/Sdk/Langchain/Runs/Interleaved.antt =====
-- The log of a run, whatever callbacks of other runs and of tools come between its own.
use inferspect.Prelude.{
  ℕ, ◌≡◌, refl, Option, ap, ◌∙◌, String, false, none, some, List, [], ◌∷◌, ◌++◌, All, eq_refl,
  str_append, str_join,
}
use inferspect.Prelude.Tables.{find, find-put, find-remove}
use inferspect.Sdk.Schema.{Status, InferenceLog}
use inferspect.Sdk.Client.{truncate}
use inferspect.Sdk.Client.Chunk.{Message}
use inferspect.Sdk.Client.Span.{InferenceSpan, Ending, open_span, finalize}
use inferspect.Sdk.Client.Logger.{call_all}
use inferspect.Sdk.Client.Streaming.{observed, texts, first_time}
use inferspect.Sdk.Client.Responses.{final_calls, final_text, observed-append, stream-Collects}
use inferspect.Sdk.Langchain.{
  Handler, Entry, Generation, with_message, bare, last_of, message_in, Start, SdkCallback,
  of_inference, final_ai_message, last_human_text,
}
use inferspect.Sdk.Langchain.Runs.{
  Callback, new_span, end_span, on_chat_model_start, on_llm_end, handle, handle_all, close_run,
}
use inferspect.Sdk.Langchain.Runs.Kept.{bounds_run, chunks_in, handle-find}

abbrev pub chunks_of : String → List Callback → List (ℕ × Message)
chunks_of run [] = []
chunks_of run (cb ∷ cbs) = chunks_in run cb ++ chunks_of run cbs

-- The last of a list, from its first item on.
abbrev last_from {ℓ} : {A : Type ℓ} → A → List A → A
last_from x [] = x
last_from x (y ∷ ys) = last_from y ys

abbrev message_of : Generation → Option Message
message_of (with_message m) = m
message_of (bare m) = some m

-- The message of the last generation of the last list, where there is one.
abbrev pub final_message : List (List Generation) → Option Message
final_message [] = none
final_message (gens ∷ later) = elim (last_from gens later) [
  | [] ↦ none
  | g ∷ gs ↦ message_of (last_from g gs)
]

last_of_lem : {A : Type 0} (x : A) (xs : List A) → last_of (x ∷ xs) ≡ some (last_from x xs)
last_of_lem x [] = refl
last_of_lem x (y ∷ ys) = rw (last_of_lem y ys) refl

in_last :
    (gens : List Generation)
    → (elim (last_of gens) as (λ o. Option Message) [ none ↦ none | some g ↦ message_in g ])
      ≡ (elim gens as (λ o. Option Message) [ [] ↦ none | g ∷ gs ↦ message_of (last_from g gs) ])
in_last [] = refl
in_last (g ∷ gs) = rw (last_of_lem g gs) (by_kind (last_from g gs))
  where
    by_kind : (g : Generation) → message_in g ≡ message_of g
    by_kind (with_message m) = refl
    by_kind (bare m) = refl

final_ai_message_lem : (gens : List (List Generation)) → final_ai_message gens ≡ final_message gens
unfolding final_ai_message
final_ai_message_lem [] = refl
final_ai_message_lem (gens ∷ later) =
    rw (final_ai_message, last_of_lem gens later) (in_last (last_from gens later))

module _ (h : Handler) (run : String) where
  handle_all-find :
      (cbs : List Callback) (s : SdkCallback) (span : InferenceSpan)
      → All (λ cb. bounds_run run cb ≡ false) cbs
      → find run s.inference_runs ≡ some span
      → find run (handle_all h cbs s).0.inference_runs
        ≡ some (call_all h.codec (observed (chunks_of run cbs)) span)
  unfolding handle_all call_all
  handle_all-find [] s span away found = found
  handle_all-find (cb ∷ cbs) s span away found =
      rw (observed-append h.codec (chunks_in run cb) (chunks_of run cbs) span)
        (handle_all-find cbs (handle h cb s).0 _ away.1 (handle-find h run cb s span away.0 found))

  -- Once its run is open, whatever other callbacks come, the end of the run submits one log of the
  -- span as its own chunks have left it, and the run is over.
  on_llm_end_once :
      (cbs : List Callback) (gens : List (List Generation)) (e : Ending) (s : SdkCallback)
      (span : InferenceSpan)
      → All (λ cb. bounds_run run cb ≡ false) cbs
      → find run s.inference_runs ≡ some span
      → let (ended, logs) = on_llm_end h run gens e (handle_all h cbs s).0 in
        (logs
          ≡ end_span h
              (final_ai_message gens)
              e
              (call_all h.codec (observed (chunks_of run cbs)) span)
            ∷ [])
        × (find run ended.inference_runs ≡ none)
  unfolding on_llm_end
  on_llm_end_once cbs gens e s span away found =
      let t = (handle_all h cbs s).0 in
      let held = handle_all-find cbs s span away found in
      (
        ap (λ mine. (close_run h run (final_ai_message gens) e mine t).1) held,
        ap (λ mine. find run (close_run h run (final_ai_message gens) e mine t).0.inference_runs)
              held
            ∙ find-remove run run t.inference_runs
            ∙ rw (eq_refl run) refl,
      )

-- A run of a chat model, whatever callbacks of other runs and of tools come between its own, submits one
-- log at its end and is over. The log has the request id of the run's span, the status ok, the time
-- of the first chunk, and as its output the truncated text of all chunks of the run, in order,
-- followed by the whole text of the final message once more, redacted.
pub run_logs_once :
    (h : Handler) (st : Start) (entries : List Entry) (cbs : List Callback)
    (gens : List (List Generation)) (e : Ending) (s : SdkCallback)
    → All (λ cb. bounds_run st.run_id cb ≡ false) cbs
    → let opened = (on_chat_model_start h st entries s) in
      let chunks = chunks_of st.run_id cbs in
      let (ended, logs) = on_llm_end h st.run_id gens e (handle_all h cbs opened).0 in
      (log : InferenceLog) × (logs ≡ of_inference log ∷ [])
      × (find st.run_id ended.inference_runs ≡ none)
      × (log.request_id ≡ st.request_id)
      × (log.status ≡ Status.ok)
      × (log.ttft_ms ≡ first_time chunks)
      × (log.output_preview
          ≡ h.redact (
              truncate (
                str_append
                  (str_join (texts h.codec chunks))
                  (final_text h.codec (final_message gens)))))
unfolding on_chat_model_start finalize open_span
run_logs_once h st entries cbs gens e s away =
    let c = h.codec in
    let chunks = chunks_of st.run_id cbs in
    let final = final_ai_message gens in
    let span = new_span h st (last_human_text c entries) in
    let opened = on_chat_model_start h st entries s in
    let held : find st.run_id opened.inference_runs ≡ some span =
      find-put st.run_id st.run_id span s.inference_runs ∙ rw (eq_refl st.run_id) refl in
    let once = on_llm_end_once h st.run_id cbs gens e opened span away held in
    let all = stream-Collects c chunks final span in
    (
      finalize h.redact e Status.ok none
          (call_all c (final_calls final) (call_all c (observed chunks) span)),
      once.0,
      once.1,
      ap (λ o. o.request_id) all.opening,
      refl,
      all.ttft,
      ap (λ t. h.redact (truncate t)) all.output
          ∙ ap (λ m. h.redact (truncate (str_append (str_join (texts c chunks)) (final_text c m))))
              (final_ai_message_lem gens),
    )
