-- ===== src/Insights/Metrics/Queries.antt =====
-- apps/insights-api/insights_api/repositories/clickhouse_repo.py: the queries of the metrics. A query
-- is its SQL and the values of its parameters; the last argument of an SQL text is `_client_filter`.
use inferspect.Prelude.{
  ℕ, String, Option, none, some, List, [], ◌∷◌, ◌++◌, str_eq, str_append, str_join, if◌then◌else◌,
}

pub data Param : Type 0 where
  moment : ℕ → Param
  number : ℕ → Param
  text : String → Param

pub record Query : Type 0 where
  pub sql : String
  pub params : List (String × Param)

abbrev pub client_clause : String
client_clause = " AND client = {client:String}"

abbrev pub client_filter : Option String → String
client_filter none = ""
client_filter (some client) = client_clause

-- `_group_columns`
abbrev pub group_columns : String → List String
group_columns group =
    if str_eq group "model"
    then "provider" ∷ "model" ∷ []
    else if str_eq group "provider"
    then "provider" ∷ []
    else []

-- `", ".join(columns)`
abbrev commas : List String → String
commas [] = ""
commas (c ∷ []) = c
commas (c ∷ d ∷ cs) = str_append c (str_append ", " (commas (d ∷ cs)))

abbrev led_by_comma : String → String
led_by_comma select = if str_eq select "" then "" else str_append ", " select

abbrev tail_of : String → String
tail_of group = led_by_comma (commas (group_columns group))

abbrev or_model : List String → List String
or_model [] = "model" ∷ []
or_model (c ∷ cs) = c ∷ cs

abbrev select_or_model : String → String
select_or_model group = commas (or_model (group_columns group))

-- `_metric_expr`
abbrev metric_expr : String → String
metric_expr metric =
    if str_eq metric "latency"
    then "avg(latency_ms)"
    else if str_eq metric "tokens"
    then "sum(total_tokens)"
    else "sum(cost_usd)"

unfoldable pub latency_buckets_sql : String → String → String
latency_buckets_sql group filter = str_join (
    "\n        SELECT\n            bucket "
    ∷ (tail_of group)
    ∷ ",\n            quantileMerge(0.5)(p50_latency_state)  AS p50,\n            quantileMerge(0.95)(p95_latency_state) AS p95,\n            quantileMerge(0.99)(p99_latency_state) AS p99,\n            countMerge(req_count_state)            AS req_count\n        FROM mv_inference_5m\n        WHERE bucket >= {since:DateTime64(3)}"
    ∷ filter
    ∷ "\n        GROUP BY bucket "
    ∷ (tail_of group)
    ∷ "\n        ORDER BY bucket ASC "
    ∷ (tail_of group)
    ∷ "\n    "
    ∷ [])

unfoldable pub throughput_buckets_sql : String → String → String
throughput_buckets_sql group filter = str_join (
    "\n        SELECT\n            bucket "
    ∷ (tail_of group)
    ∷ ",\n            countMerge(req_count_state) AS req_count,\n            sumMerge(tokens_state)      AS tokens,\n            sumMerge(prompt_tokens_state)     AS prompt_tokens,\n            sumMerge(completion_tokens_state) AS completion_tokens\n        FROM mv_inference_5m\n        WHERE bucket >= {since:DateTime64(3)}"
    ∷ filter
    ∷ "\n        GROUP BY bucket "
    ∷ (tail_of group)
    ∷ "\n        ORDER BY bucket ASC "
    ∷ (tail_of group)
    ∷ "\n    "
    ∷ [])

unfoldable pub error_counts_sql : String → String
error_counts_sql filter = str_join (
    "\n        SELECT\n            coalesce(error_code, '') AS error_code,\n            provider,\n            count() AS error_count,\n            arraySlice(groupArray(error_message), 1, {sample_size:UInt32}) AS samples\n        FROM inference_logs\n        WHERE started_at >= {since:DateTime64(3)}\n          AND status = 'error'"
    ∷ filter ∷ "\n        GROUP BY error_code, provider\n        ORDER BY error_count DESC\n    "
    ∷ [])

unfoldable pub cost_by_group_sql : String → String → String
cost_by_group_sql group filter = str_join (
    "\n        SELECT\n            "
    ∷ (select_or_model group)
    ∷ ",\n            sumMerge(cost_state)       AS cost_usd,\n            countMerge(req_count_state) AS req_count,\n            sumMerge(tokens_state)     AS tokens\n        FROM mv_inference_5m\n        WHERE bucket >= {since:DateTime64(3)}"
    ∷ filter
    ∷ "\n        GROUP BY "
    ∷ (select_or_model group)
    ∷ "\n        ORDER BY cost_usd DESC\n    "
    ∷ [])

unfoldable pub top_cost_conversations_sql : String → String
top_cost_conversations_sql filter = str_join (
    "\n        SELECT\n            conversation_id,\n            sum(cost_usd)   AS cost_usd,\n            sum(total_tokens) AS tokens,\n            count()         AS req_count\n        FROM inference_logs\n        WHERE started_at >= {since:DateTime64(3)}"
    ∷ filter
    ∷ "\n        GROUP BY conversation_id\n        ORDER BY cost_usd DESC\n        LIMIT {limit:UInt32}\n    "
    ∷ [])

unfoldable pub top_conversations_sql : String → String → String
top_conversations_sql metric filter = str_join (
    "\n        SELECT\n            conversation_id,\n            session_id,\n            any(provider)  AS provider,\n            any(model)     AS model,\n            sum(cost_usd)  AS cost_usd,\n            sum(total_tokens) AS tokens,\n            avg(latency_ms) AS avg_latency_ms,\n            max(latency_ms) AS max_latency_ms,\n            count()        AS req_count,\n            "
    ∷ (metric_expr metric)
    ∷ "  AS metric_value\n        FROM inference_logs\n        WHERE started_at >= {since:DateTime64(3)}"
    ∷ filter
    ∷ "\n        GROUP BY conversation_id, session_id\n        ORDER BY metric_value DESC\n        LIMIT {limit:UInt32}\n    "
    ∷ [])

unfoldable pub summary_rollup_sql : String → String
summary_rollup_sql filter = str_join (
    "\n        SELECT\n            countMerge(req_count_state)             AS total_requests,\n            sumMerge(tokens_state)                  AS total_tokens,\n            sumMerge(cost_state)                    AS total_cost_usd,\n            countMerge(error_count_state)           AS total_errors,\n            quantileMerge(0.5)(p50_latency_state)   AS p50_latency,\n            quantileMerge(0.95)(p95_latency_state)  AS p95_latency\n        FROM mv_inference_5m\n        WHERE bucket >= {since:DateTime64(3)}"
    ∷ filter ∷ "\n    " ∷ [])

abbrev pub scoped : Option String → List (String × Param) → List (String × Param)
scoped none params = params
scoped (some client) params = params ++ ("client", text client) ∷ []

abbrev pub query_of : (String → String) → List (String × Param) → Option String → Query
query_of sql params client = record {
  sql = sql (client_filter client);
  params = scoped client params;
}
