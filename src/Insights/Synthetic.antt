-- ===== src/Insights/Synthetic.antt =====
-- apps/insights-api/insights_api/services/admin_service.py: `generate_synthetic_logs`. What `random` and `uuid`
-- give in a round is a value of `Draw`.
pub mod Consistent
use inferspect.Prelude.{
  ℕ, ◌+◌, String, Bool, true, false, not, ◌&&◌, Option, none, some, List, [], ◌∷◌, ◌++◌, str_append,
  str_len, if◌then◌else◌,
}
use inferspect.Value.{
  Value, Fields, Items, ℤ, pos, null, bool, int, str, float, arr, obj, nil, cons, end, field,
}

-- Python's `isoformat`, of a time in milliseconds, `str` of a number, the rounded cost of a number of
-- tokens, and the schema's version.
pub record Formats : Type 0 where
  pub isoformat : ℕ → String
  pub decimal : ℕ → String
  pub cost : ℕ → String
  pub schema_version : String

-- A round: the model with its provider, the ids, the start, and the draws that are made of the tool and of the
-- completion only where they are used.
pub record Draw : Type 0 where
  pub provider : String
  pub model : String
  pub conversation_id : String
  pub request_id : String
  pub started : ℕ
  pub latency_ms : ℕ
  pub ttft_ms : ℕ
  pub is_error : Bool
  pub wants_tool : Bool
  pub prompt_tokens : ℕ
  pub completion : ℕ
  pub error_code : String
  pub tool_name : String
  pub tool_latency : ℕ
  pub tool_request_id : String
  pub tool_call_id : String

abbrev pub emits_tool : Draw → Bool
emits_tool d = not d.is_error && d.wants_tool

abbrev pub completion_tokens : Draw → ℕ
completion_tokens d = if d.is_error then 0 else d.completion

abbrev pub dict : List (String × Value) → Fields
dict [] = end
dict ((k, v) ∷ rest) = field k v (dict rest)

abbrev pub number : ℕ → Value
number n = int (pos n)

abbrev marked : Value
marked = obj (field "synthetic" (bool true) end)

abbrev text_or_none : Bool → String → Value
text_or_none true s = str s
text_or_none false s = null

-- The summary that is returned.
pub record Counts : Type 0 where
  pub inference_events : ℕ
  pub tool_events : ℕ
  pub error_events : ℕ

abbrev pub counted : Draw → Counts → Counts
counted d n = record {
  inference_events = n.inference_events + 1;
  tool_events = n.tool_events + (if emits_tool d then 1 else 0);
  error_events = n.error_events + (if d.is_error then 1 else 0);
}

abbrev pub no_counts : Counts
no_counts = record { inference_events = 0; tool_events = 0; error_events = 0 }

module _ (f : Formats) (session_id : String) where
  abbrev output_of : ℕ → Draw → String
  output_of i d =
      if d.is_error
      then ""
      else str_append "synthetic response " (str_append (f.decimal i) (str_append " from " d.model))

  abbrev pub finish_reason_of : Draw → String
  finish_reason_of d = if d.is_error then "error" else if emits_tool d then "tool_calls" else "stop"

  abbrev summary_of : Draw → Value
  summary_of d =
      if emits_tool d
      then arr (
          cons (obj (dict (("name", str "get_current_time") ∷ ("args_preview", str "{}") ∷ [])))
            nil)
      else arr nil

  -- `inference_event` of round i
  unfoldable pub inference_event : ℕ → Draw → Fields
  inference_event i d = dict (
      ("schema_version", str f.schema_version)
      ∷ ("log_type", str "inference")
      ∷ ("service", str "synthetic")
      ∷ ("sdk_version", str "0.1.0")
      ∷ ("request_id", str d.request_id)
      ∷ ("conversation_id", str d.conversation_id)
      ∷ ("session_id", str session_id)
      ∷ ("user_id", null)
      ∷ ("provider", str d.provider)
      ∷ ("model", str d.model)
      ∷ ("stream", bool true)
      ∷ ("started_at", str (f.isoformat d.started))
      ∷ ("finished_at", str (f.isoformat (d.started + d.latency_ms)))
      ∷ ("latency_ms", number d.latency_ms)
      ∷ ("ttft_ms", number d.ttft_ms)
      ∷ ("prompt_tokens", number d.prompt_tokens)
      ∷ ("completion_tokens", number (completion_tokens d))
      ∷ ("total_tokens", number (d.prompt_tokens + completion_tokens d))
      ∷ ("cost_usd", float (f.cost (d.prompt_tokens + completion_tokens d)))
      ∷ ("status", str (if d.is_error then "error" else "ok"))
      ∷ ("finish_reason", str (finish_reason_of d))
      ∷ ("tool_calls_count", number (if emits_tool d then 1 else 0))
      ∷ ("tool_calls_summary", summary_of d)
      ∷ ("error_code", text_or_none d.is_error d.error_code)
      ∷ ("error_message", text_or_none d.is_error (str_append "synthetic " d.error_code))
      ∷ ("input_preview", str (str_append "synthetic prompt " (f.decimal i)))
      ∷ ("output_preview", str (output_of i d))
      ∷ ("metadata", marked)
      ∷ [])

  abbrev result_of : Draw → String
  result_of d = str_append "synthetic-result-for-" d.tool_name

  -- `tool_event`
  unfoldable pub tool_event : Draw → Fields
  tool_event d = dict (
      ("schema_version", str f.schema_version)
      ∷ ("log_type", str "tool_execution")
      ∷ ("service", str "synthetic")
      ∷ ("sdk_version", str "0.1.0")
      ∷ ("request_id", str d.tool_request_id)
      ∷ ("tool_call_id", str d.tool_call_id)
      ∷ ("parent_inference_request_id", str d.request_id)
      ∷ ("conversation_id", str d.conversation_id)
      ∷ ("session_id", str session_id)
      ∷ ("user_id", null)
      ∷ ("tool_name", str d.tool_name)
      ∷ ("started_at", str (f.isoformat (d.started + d.ttft_ms)))
      ∷ ("finished_at", str (f.isoformat (d.started + d.ttft_ms + d.tool_latency)))
      ∷ ("latency_ms", number d.tool_latency)
      ∷ ("status", str "ok")
      ∷ ("error_code", null)
      ∷ ("error_message", null)
      ∷ ("args_preview", str "{\"q\":\"synthetic\"}")
      ∷ ("result_preview", str (result_of d))
      ∷ ("result_size_bytes", number (str_len (result_of d)))
      ∷ ("metadata", marked)
      ∷ [])

  -- What a round submits.
  abbrev pub round : ℕ → Draw → List Fields
  round i d = inference_event i d ∷ (if emits_tool d then tool_event d ∷ [] else [])

  -- The loop from round i on, with what has been counted: the events that are submitted, in order.
  unfoldable pub rounds : ℕ → List Draw → Counts → List Fields × Counts
  rounds i [] n = ([], n)
  rounds i (d ∷ ds) n =
      let (events, total) = rounds (i + 1) ds (counted d n) in (round i d ++ events, total)

  unfoldable pub generate_synthetic_logs : List Draw → List Fields × Counts
  unfolding rounds
  generate_synthetic_logs draws = rounds 0 draws no_counts
