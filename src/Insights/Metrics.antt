-- ===== src/Insights/Metrics.antt =====
-- apps/insights-api/insights_api/services/metrics_service.py: the checks of what the user asks for, and the
-- queries that are made.
pub mod Queries
pub mod Safe
use inferspect.Prelude.{
  ℕ, String, Bool, true, false, not, ◌&&◌, ◌||◌, Option, none, some, List, [], ◌∷◌, leb, str_eq,
  if◌then◌else◌,
}
use inferspect.Insights.Window.{WindowText, since_for}
use inferspect.Insights.Metrics.Queries.{
  Query, moment, number, query_of, latency_buckets_sql, throughput_buckets_sql, error_counts_sql,
  cost_by_group_sql, top_cost_conversations_sql, top_conversations_sql, summary_rollup_sql,
}

-- A metric with what is particular to it.
pub data Metric : Type 0 where
  latency throughput cost : (group : String) → Metric
  errors : (sample_size : ℕ) → Metric
  top_conversations : (metric : String) → (limit : ℕ) → Metric
  summary : Metric

-- `_validate_group` and `_validate_metric`
abbrev pub is_allowed_group : String → Bool
is_allowed_group group = str_eq group "model" || (str_eq group "provider" || str_eq group "none")

abbrev pub is_allowed_metric : String → Bool
is_allowed_metric metric =
    str_eq metric "latency" || (str_eq metric "tokens" || str_eq metric "cost")

abbrev pub is_valid : Metric → Bool
is_valid (latency group) = is_allowed_group group
is_valid (throughput group) = is_allowed_group group
is_valid (cost group) = is_allowed_group group
is_valid (errors sample_size) = true
is_valid (top_conversations metric limit) =
    is_allowed_metric metric && (leb 1 limit && leb limit 200)
is_valid summary = true

-- The queries since a time.
unfoldable pub queries_since : Metric → ℕ → Option String → List Query
queries_since (latency group) since client =
    query_of (latency_buckets_sql group) (("since", moment since) ∷ []) client ∷ []
queries_since (throughput group) since client =
    query_of (throughput_buckets_sql group) (("since", moment since) ∷ []) client ∷ []
queries_since (cost group) since client =
    query_of (cost_by_group_sql group) (("since", moment since) ∷ []) client
    ∷ query_of top_cost_conversations_sql (("since", moment since) ∷ ("limit", number 10) ∷ [])
        client
    ∷ []
queries_since (errors sample_size) since client =
    query_of error_counts_sql (("since", moment since) ∷ ("sample_size", number sample_size) ∷ [])
      client
    ∷ []
queries_since (top_conversations metric limit) since client =
    query_of (top_conversations_sql metric) (("since", moment since) ∷ ("limit", number limit) ∷ [])
      client
    ∷ []
queries_since summary since client =
    query_of summary_rollup_sql (("since", moment since) ∷ []) client ∷ []

abbrev pub queries_from : Metric → Option ℕ → Option String → Option (List Query)
queries_from metric none client = none
queries_from metric (some since) client = some (queries_since metric since client)

-- What a request makes ClickHouse answer; `none` is a `ValueError`.
unfoldable pub queries : WindowText → ℕ → Metric → String → Option String → Option (List Query)
queries py now metric window client =
    if is_valid metric then queries_from metric (since_for py now window) client else none
