-- ===== src/Sdk/Langchain/Runs/Kept.antt =====
-- The open span of a run, over a callback that does not bound the run.
use inferspect.Prelude.{
  ℕ, ◌≡◌, refl, inl, inr, Bool-cases, String, Bool, false, Option, none, some, List, [], ◌∷◌,
  str_eq, eq_iff, eq_refl, if◌then◌else◌,
}
use inferspect.Prelude.Tables.{find, find-put, put-other, remove-other}
use inferspect.Sdk.Client.Chunk.{Message}
use inferspect.Sdk.Client.Span.{InferenceSpan, Ending, observe_chunk}
use inferspect.Sdk.Client.Logger.{Exit, returned, call_span, call_all}
use inferspect.Sdk.Client.Streaming.{observed}
use inferspect.Sdk.Client.Tool.{ToolSpan, set_result}
use inferspect.Sdk.Langchain.{Handler, SdkCallback, final_ai_message}
use inferspect.Sdk.Langchain.Runs.{
  Callback, chat_model_start, llm_start, llm_new_token, llm_end, llm_error, tool_start, tool_end,
  tool_error, token_chunk, on_chat_model_start, on_llm_start, on_llm_new_token, on_llm_end,
  on_llm_error, on_tool_start, on_tool_end, on_tool_error, handle, observe_in, close_run, fail_run,
  close_tool,
}

-- The callback starts, ends or fails the run.
abbrev pub bounds_run : String → Callback → Bool
bounds_run run (chat_model_start st entries) = str_eq st.run_id run
bounds_run run (llm_start st prompts) = str_eq st.run_id run
bounds_run run (llm_new_token r token chunk elapsed) = false
bounds_run run (llm_end r gens e) = str_eq r run
bounds_run run (llm_error r exit e) = str_eq r run
bounds_run run (tool_start st call input inputs) = false
bounds_run run (tool_end r output e) = false
bounds_run run (tool_error r exit e) = false

abbrev chunk_at : ℕ → Option Message → List (ℕ × Message)
chunk_at elapsed none = []
chunk_at elapsed (some m) = (elapsed, m) ∷ []

-- The chunks that a callback brings to the run, with their times.
abbrev pub chunks_in : String → Callback → List (ℕ × Message)
chunks_in run (llm_new_token r token chunk elapsed) =
    if str_eq r run then chunk_at elapsed (token_chunk token chunk) else []
chunks_in run _ = []

module _ (h : Handler) (run : String) where
  token_own :
      (m : Option Message) (elapsed : ℕ) (s : SdkCallback) (span : InferenceSpan)
      → find run s.inference_runs ≡ some span
      → find run (observe_in h run elapsed (some span) m s).inference_runs
        ≡ some (call_all h.codec (observed (chunk_at elapsed m)) span)
  unfolding call_all call_span
  token_own none elapsed s span found = found
  token_own (some m) elapsed s span found =
      rw (find-put run run (observe_chunk h.codec elapsed m span) s.inference_runs)
        (rw (eq_refl run) refl)

  token_other :
      (r : String) (mine : Option InferenceSpan) (m : Option Message) (elapsed : ℕ)
      (s : SdkCallback) (span : InferenceSpan)
      → str_eq r run ≡ false
      → find run s.inference_runs ≡ some span
      → find run (observe_in h r elapsed mine m s).inference_runs ≡ some span
  token_other r none m elapsed s span away found = found
  token_other r (some sp) none elapsed s span away found = found
  token_other r (some sp) (some m) elapsed s span away found =
      put-other r run (observe_chunk h.codec elapsed m sp) span s.inference_runs away found

  token-find :
      (r token : String) (chunk : Option Message) (elapsed : ℕ) (s : SdkCallback)
      (span : InferenceSpan)
      → find run s.inference_runs ≡ some span
      → find run (on_llm_new_token h r token chunk elapsed s).inference_runs
        ≡ some
            (call_all h.codec (observed (chunks_in run (llm_new_token r token chunk elapsed))) span)
  unfolding on_llm_new_token call_all
  token-find r token chunk elapsed s span found = elim (Bool-cases (str_eq r run)) [
    | inl same ↦ rw same (
        rw ((eq_iff r run).0 same)
          (rw found (token_own (token_chunk token chunk) elapsed s span found)))
    | inr away ↦ rw away (
        token_other r (find r s.inference_runs) (token_chunk token chunk) elapsed s span away found)
  ]

  close-find :
      (r : String) (final : Option Message) (e : Ending) (mine : Option InferenceSpan)
      (s : SdkCallback) (span : InferenceSpan)
      → str_eq r run ≡ false
      → find run s.inference_runs ≡ some span
      → find run (close_run h r final e mine s).0.inference_runs ≡ some span
  close-find r final e none s span away found = found
  close-find r final e (some sp) s span away found =
      remove-other r run span s.inference_runs away found

  fail-find :
      (r : String) (exit : Exit) (e : Ending) (mine : Option InferenceSpan) (s : SdkCallback)
      (span : InferenceSpan)
      → str_eq r run ≡ false
      → find run s.inference_runs ≡ some span
      → find run (fail_run h r exit e mine s).0.inference_runs ≡ some span
  fail-find r exit e none s span away found = found
  fail-find r exit e (some sp) s span away found =
      remove-other r run span s.inference_runs away found

  tool-find :
      (r : String) (set : ToolSpan → ToolSpan) (exit : Exit) (e : Ending) (mine : Option ToolSpan)
      (s : SdkCallback) (span : InferenceSpan)
      → find run s.inference_runs ≡ some span
      → find run (close_tool h r set exit e mine s).0.inference_runs ≡ some span
  tool-find r set exit e none s span found = found
  tool-find r set exit e (some sp) s span found = found

  -- What a callback that does not bound the run does to its open span.
  pub handle-find :
      (cb : Callback) (s : SdkCallback) (span : InferenceSpan)
      → bounds_run run cb ≡ false
      → find run s.inference_runs ≡ some span
      → find run (handle h cb s).0.inference_runs
        ≡ some (call_all h.codec (observed (chunks_in run cb)) span)
  unfolding handle on_chat_model_start on_llm_start on_tool_start on_llm_end on_llm_error
      on_tool_end on_tool_error call_all
  handle-find (chat_model_start st entries) s span away found =
      put-other st.run_id run _ span s.inference_runs away found
  handle-find (llm_start st prompts) s span away found =
      put-other st.run_id run _ span s.inference_runs away found
  handle-find (llm_new_token r token chunk elapsed) s span away found =
      token-find r token chunk elapsed s span found
  handle-find (llm_end r gens e) s span away found =
      close-find r (final_ai_message gens) e (find r s.inference_runs) s span away found
  handle-find (llm_error r exit e) s span away found =
      fail-find r exit e (find r s.inference_runs) s span away found
  handle-find (tool_start st call input inputs) s span away found = found
  handle-find (tool_end r output e) s span away found =
      tool-find r (set_result h.codec h.utf8_len output) returned e (find r s.tool_runs) s span
        found
  handle-find (tool_error r exit e) s span away found =
      tool-find r (λ sp. sp) exit e (find r s.tool_runs) s span found
