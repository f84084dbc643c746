-- ===== src/Insights/Repository.antt =====
-- apps/insights-api/insights_api/repositories/clickhouse_repo.py: the queries that are not the
-- metrics' own, with the values of their parameters, and what is made of their rows.
pub mod Sql
pub mod Bound
use inferspect.Prelude.{
  ℕ, String, Bool, Option, none, some, List, [], ◌∷◌, ◌++◌, str_eq, if◌then◌else◌,
}
use inferspect.Insights.Metrics.Queries.{
  Param, moment, number, text, Query, client_filter, scoped, query_of,
}
use inferspect.Insights.Repository.Sql.{
  session_inference_events_sql, session_tool_events_sql, sdk_overhead_quantiles_sql,
  anomaly_series_sql, connected_agents_sql, recent_fingerprints_for_host_sql,
  enforcement_events_sql, session_fingerprint_sql, session_fingerprint_fallback_sql,
  preview_for_fingerprint_sql, tool_metrics_sql,
}

unfoldable pub session_inference_events : String → Option String → Query
session_inference_events session_id client =
    query_of session_inference_events_sql (("id", text session_id) ∷ []) client

unfoldable pub session_tool_events : String → Option String → Query
session_tool_events session_id client =
    query_of session_tool_events_sql (("id", text session_id) ∷ []) client

unfoldable pub sdk_overhead_quantiles : ℕ → Option String → Query
sdk_overhead_quantiles since client =
    query_of sdk_overhead_quantiles_sql (("since", moment since) ∷ []) client

unfoldable pub anomaly_series : ℕ → Option String → Query
anomaly_series since client = query_of anomaly_series_sql (("since", moment since) ∷ []) client

unfoldable pub connected_agents : ℕ → Option String → Query
connected_agents since client = query_of connected_agents_sql (("since", moment since) ∷ []) client

unfoldable pub recent_fingerprints_for_host : String → ℕ → ℕ → Option String → Query
recent_fingerprints_for_host host_id since limit client =
    query_of recent_fingerprints_for_host_sql
      (("host_id", text host_id) ∷ ("since", moment since) ∷ ("limit", number limit) ∷ []) client

abbrev pub host_filter : Option String → String
host_filter none = ""
host_filter (some host_id) = " AND ee.host_id = {host_id:String}"

abbrev pub enforcement_client_clause : Option String → String
enforcement_client_clause none = ""
enforcement_client_clause (some client) = " AND ee.client = {client:String}"

abbrev on_host : Option String → List (String × Param) → List (String × Param)
on_host none params = params
on_host (some host_id) params = params ++ ("host_id", text host_id) ∷ []

unfoldable pub enforcement_events : ℕ → Option String → ℕ → Option String → Query
enforcement_events since host_id limit client = record {
  sql = enforcement_events_sql (host_filter host_id) (enforcement_client_clause client);
  params = scoped client (on_host host_id (("since", moment since) ∷ ("limit", number limit) ∷ []));
}

-- The first query of `session_fingerprint`, and the second, which is made if the first finds nothing.
unfoldable pub direct_query : String → Option String → Query
direct_query session_id client =
    query_of session_fingerprint_sql (("id", text session_id) ∷ []) client

unfoldable pub fallback_query : Option String → Query
fallback_query client = query_of session_fingerprint_fallback_sql [] client

unfoldable pub preview_query : String → String → Option String → Query
preview_query host_id fingerprint client =
    query_of preview_for_fingerprint_sql
      (("host_id", text host_id) ∷ ("fingerprint", text fingerprint) ∷ []) client

unfoldable pub tool_metrics : ℕ → Option String → Query
tool_metrics since client = query_of tool_metrics_sql (("since", moment since) ∷ []) client

abbrev pub first_row {ℓ} : {R : Type ℓ} → List R → Option R
first_row [] = none
first_row (r ∷ rs) = some r

-- What ClickHouse answers is a parameter.
module _ {R : Type 0} (run : Query → List R) where
  abbrev pub or_fallback : Option String → List R → Option R
  or_fallback client [] = first_row (run (fallback_query client))
  or_fallback client (r ∷ rs) = some r

  unfoldable pub session_fingerprint : String → Option String → Option R
  session_fingerprint session_id client = or_fallback client (run (direct_query session_id client))

  abbrev preview_in : (R → String) → List R → Option String
  preview_in preview_of [] = none
  preview_in preview_of (r ∷ rs) = some (preview_of r)

  -- `preview_of` is the text of `input_preview`, or the empty text.
  unfoldable pub preview_for_fingerprint :
      (R → String) → String → String → Option String → Option String
  preview_for_fingerprint preview_of host_id fingerprint client =
      preview_in preview_of (run (preview_query host_id fingerprint client))
