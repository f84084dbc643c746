-- ===== src/Insights/Metrics/Safe.antt =====
-- The SQL of the metrics and what the user can put into it.
use inferspect.Prelude.{
  ℕ, ◌≡◌, refl, inl, inr, arith, String, true, Option, none, some, List, [], ◌∷◌, All, str_eq,
  str_join, eq_iff, Bool-cases, Option-cases, if◌then◌else◌,
}
use std.Path.{subst}
use inferspect.Insights.Window.{WindowText, since_for}
use inferspect.Insights.Metrics.Queries.{
  Param, moment, number, text, Query, query_of, scoped, client_filter, latency_buckets_sql,
  throughput_buckets_sql, error_counts_sql, cost_by_group_sql, top_cost_conversations_sql,
  top_conversations_sql, summary_rollup_sql,
}
use inferspect.Insights.Metrics.{
  Metric, latency, throughput, cost, errors, top_conversations, summary, is_allowed_group,
  is_allowed_metric, is_valid, queries_since, queries,
}

pub data Group : Type 0 where
  by_model by_provider ungrouped : Group

abbrev pub group_name : Group → String
group_name by_model = "model"
group_name by_provider = "provider"
group_name ungrouped = "none"

pub data Ranking : Type 0 where
  by_latency by_tokens by_cost : Ranking

abbrev pub ranking_name : Ranking → String
ranking_name by_latency = "latency"
ranking_name by_tokens = "tokens"
ranking_name by_cost = "cost"

-- The finitely many texts of the metrics' SQL, but for the tenant's clause.
pub data Template : Type 0 where
  latencies throughputs costs : Group → Template
  error_totals costly_conversations rollup : Template
  ranked : Ranking → Template

-- The columns of a group after the first, and those that a cost is grouped by.
abbrev more_columns : Group → String
more_columns by_model = ", provider, model"
more_columns by_provider = ", provider"
more_columns ungrouped = ""

abbrev cost_columns : Group → String
cost_columns by_model = "provider, model"
cost_columns by_provider = "provider"
cost_columns ungrouped = "model"

abbrev measure : Ranking → String
measure by_latency = "avg(latency_ms)"
measure by_tokens = "sum(total_tokens)"
measure by_cost = "sum(cost_usd)"

-- The texts, written out, with the clause that scopes them to a tenant.
abbrev pub text_of : Template → String → String
text_of (latencies g) clause = str_join (
    "\n        SELECT\n            bucket "
    ∷ more_columns g
    ∷ ",\n            quantileMerge(0.5)(p50_latency_state)  AS p50,\n            quantileMerge(0.95)(p95_latency_state) AS p95,\n            quantileMerge(0.99)(p99_latency_state) AS p99,\n            countMerge(req_count_state)            AS req_count\n        FROM mv_inference_5m\n        WHERE bucket >= {since:DateTime64(3)}"
    ∷ clause
    ∷ "\n        GROUP BY bucket "
    ∷ more_columns g
    ∷ "\n        ORDER BY bucket ASC "
    ∷ more_columns g
    ∷ "\n    "
    ∷ [])
text_of (throughputs g) clause = str_join (
    "\n        SELECT\n            bucket "
    ∷ more_columns g
    ∷ ",\n            countMerge(req_count_state) AS req_count,\n            sumMerge(tokens_state)      AS tokens,\n            sumMerge(prompt_tokens_state)     AS prompt_tokens,\n            sumMerge(completion_tokens_state) AS completion_tokens\n        FROM mv_inference_5m\n        WHERE bucket >= {since:DateTime64(3)}"
    ∷ clause
    ∷ "\n        GROUP BY bucket "
    ∷ more_columns g
    ∷ "\n        ORDER BY bucket ASC "
    ∷ more_columns g
    ∷ "\n    "
    ∷ [])
text_of (costs g) clause = str_join (
    "\n        SELECT\n            "
    ∷ cost_columns g
    ∷ ",\n            sumMerge(cost_state)       AS cost_usd,\n            countMerge(req_count_state) AS req_count,\n            sumMerge(tokens_state)     AS tokens\n        FROM mv_inference_5m\n        WHERE bucket >= {since:DateTime64(3)}"
    ∷ clause
    ∷ "\n        GROUP BY "
    ∷ cost_columns g
    ∷ "\n        ORDER BY cost_usd DESC\n    "
    ∷ [])
text_of error_totals clause = str_join (
    "\n        SELECT\n            coalesce(error_code, '') AS error_code,\n            provider,\n            count() AS error_count,\n            arraySlice(groupArray(error_message), 1, {sample_size:UInt32}) AS samples\n        FROM inference_logs\n        WHERE started_at >= {since:DateTime64(3)}\n          AND status = 'error'"
    ∷ clause ∷ "\n        GROUP BY error_code, provider\n        ORDER BY error_count DESC\n    "
    ∷ [])
text_of costly_conversations clause = str_join (
    "\n        SELECT\n            conversation_id,\n            sum(cost_usd)   AS cost_usd,\n            sum(total_tokens) AS tokens,\n            count()         AS req_count\n        FROM inference_logs\n        WHERE started_at >= {since:DateTime64(3)}"
    ∷ clause
    ∷ "\n        GROUP BY conversation_id\n        ORDER BY cost_usd DESC\n        LIMIT {limit:UInt32}\n    "
    ∷ [])
text_of rollup clause = str_join (
    "\n        SELECT\n            countMerge(req_count_state)             AS total_requests,\n            sumMerge(tokens_state)                  AS total_tokens,\n            sumMerge(cost_state)                    AS total_cost_usd,\n            countMerge(error_count_state)           AS total_errors,\n            quantileMerge(0.5)(p50_latency_state)   AS p50_latency,\n            quantileMerge(0.95)(p95_latency_state)  AS p95_latency\n        FROM mv_inference_5m\n        WHERE bucket >= {since:DateTime64(3)}"
    ∷ clause ∷ "\n    " ∷ [])
text_of (ranked r) clause = str_join (
    "\n        SELECT\n            conversation_id,\n            session_id,\n            any(provider)  AS provider,\n            any(model)     AS model,\n            sum(cost_usd)  AS cost_usd,\n            sum(total_tokens) AS tokens,\n            avg(latency_ms) AS avg_latency_ms,\n            max(latency_ms) AS max_latency_ms,\n            count()        AS req_count,\n            "
    ∷ measure r
    ∷ "  AS metric_value\n        FROM inference_logs\n        WHERE started_at >= {since:DateTime64(3)}"
    ∷ clause
    ∷ "\n        GROUP BY conversation_id, session_id\n        ORDER BY metric_value DESC\n        LIMIT {limit:UInt32}\n    "
    ∷ [])

abbrev pub clause_of : Option String → String
clause_of none = ""
clause_of (some client) = " AND client = {client:String}"

abbrev pub param : String → List (String × Param) → Option Param
param k [] = none
param k ((j, v) ∷ rest) = if str_eq j k then some v else param k rest

-- The value of the tenant's parameter.
abbrev pub tenant : Option String → Option Param
tenant none = none
tenant (some client) = some (text client)

-- A query whose SQL is one of the templates with the tenant's clause, and whose tenant is the client.
abbrev pub IsSafe : Option String → Query → Type 0
IsSafe client q =
    (t : Template) × (q.sql ≡ text_of t (clause_of client))
    × (param "client" q.params ≡ tenant client)

pub allowed_group :
    (group : String) → is_allowed_group group ≡ true → (g : Group) × (group ≡ group_name g)
allowed_group group h = elim (Bool-cases (str_eq group "model")) [
  | inl e ↦ (by_model, (eq_iff group "model").0 e)
  | inr e ↦ elim (Bool-cases (str_eq group "provider")) [
    | inl f ↦ (by_provider, (eq_iff group "provider").0 f)
    | inr f ↦ (ungrouped, (eq_iff group "none").0 (ground arith))
  ]
]

pub allowed_metric :
    (metric : String) → is_allowed_metric metric ≡ true → (r : Ranking) × (metric ≡ ranking_name r)
allowed_metric metric h = elim (Bool-cases (str_eq metric "latency")) [
  | inl e ↦ (by_latency, (eq_iff metric "latency").0 e)
  | inr e ↦ elim (Bool-cases (str_eq metric "tokens")) [
    | inl f ↦ (by_tokens, (eq_iff metric "tokens").0 f)
    | inr f ↦ (by_cost, (eq_iff metric "cost").0 (ground arith))
  ]
]

-- The SQL of each query, for a group or a ranking that is allowed, is its text.
abbrev sql_of : Template → String → String
sql_of (latencies g) = latency_buckets_sql (group_name g)
sql_of (throughputs g) = throughput_buckets_sql (group_name g)
sql_of (costs g) = cost_by_group_sql (group_name g)
sql_of error_totals = error_counts_sql
sql_of costly_conversations = top_cost_conversations_sql
sql_of rollup = summary_rollup_sql
sql_of (ranked r) = top_conversations_sql (ranking_name r)

sql_of-text_of :
    (t : Template) (client : Option String)
    → sql_of t (client_filter client) ≡ text_of t (clause_of client)
unfolding latency_buckets_sql throughput_buckets_sql cost_by_group_sql error_counts_sql
    top_cost_conversations_sql summary_rollup_sql top_conversations_sql
sql_of-text_of (latencies by_model) none = refl
sql_of-text_of (latencies by_model) (some c) = refl
sql_of-text_of (latencies by_provider) none = refl
sql_of-text_of (latencies by_provider) (some c) = refl
sql_of-text_of (latencies ungrouped) none = refl
sql_of-text_of (latencies ungrouped) (some c) = refl
sql_of-text_of (throughputs by_model) none = refl
sql_of-text_of (throughputs by_model) (some c) = refl
sql_of-text_of (throughputs by_provider) none = refl
sql_of-text_of (throughputs by_provider) (some c) = refl
sql_of-text_of (throughputs ungrouped) none = refl
sql_of-text_of (throughputs ungrouped) (some c) = refl
sql_of-text_of (costs by_model) none = refl
sql_of-text_of (costs by_model) (some c) = refl
sql_of-text_of (costs by_provider) none = refl
sql_of-text_of (costs by_provider) (some c) = refl
sql_of-text_of (costs ungrouped) none = refl
sql_of-text_of (costs ungrouped) (some c) = refl
sql_of-text_of error_totals none = refl
sql_of-text_of error_totals (some c) = refl
sql_of-text_of costly_conversations none = refl
sql_of-text_of costly_conversations (some c) = refl
sql_of-text_of rollup none = refl
sql_of-text_of rollup (some c) = refl
sql_of-text_of (ranked by_latency) none = refl
sql_of-text_of (ranked by_latency) (some c) = refl
sql_of-text_of (ranked by_tokens) none = refl
sql_of-text_of (ranked by_tokens) (some c) = refl
sql_of-text_of (ranked by_cost) none = refl
sql_of-text_of (ranked by_cost) (some c) = refl

made-IsSafe :
    (t : Template) (params : List (String × Param)) (client : Option String)
    → param "client" (scoped client params) ≡ tenant client
    → IsSafe client (query_of (sql_of t) params client)
made-IsSafe t params client scoped_to = (t, sql_of-text_of t client, scoped_to)

queries_since-IsSafe :
    (metric : Metric) (since : ℕ) (client : Option String)
    → is_valid metric ≡ true
    → All (IsSafe client) (queries_since metric since client)
unfolding queries_since
queries_since-IsSafe (latency group) since none h =
    let (g, e) = allowed_group group h in
    rw e (made-IsSafe (latencies g) (("since", moment since) ∷ []) none refl, tt)
queries_since-IsSafe (latency group) since (some c) h =
    let (g, e) = allowed_group group h in
    rw e (made-IsSafe (latencies g) (("since", moment since) ∷ []) (some c) refl, tt)
queries_since-IsSafe (throughput group) since none h =
    let (g, e) = allowed_group group h in
    rw e (made-IsSafe (throughputs g) (("since", moment since) ∷ []) none refl, tt)
queries_since-IsSafe (throughput group) since (some c) h =
    let (g, e) = allowed_group group h in
    rw e (made-IsSafe (throughputs g) (("since", moment since) ∷ []) (some c) refl, tt)
queries_since-IsSafe (cost group) since none h =
    let (g, e) = allowed_group group h in
    rw e (
      made-IsSafe (costs g) (("since", moment since) ∷ []) none refl,
      (
        made-IsSafe costly_conversations (("since", moment since) ∷ ("limit", number 10) ∷ []) none
            refl,
        tt,
      ),
    )
queries_since-IsSafe (cost group) since (some c) h =
    let (g, e) = allowed_group group h in
    rw e (
      made-IsSafe (costs g) (("since", moment since) ∷ []) (some c) refl,
      (
        made-IsSafe costly_conversations (("since", moment since) ∷ ("limit", number 10) ∷ [])
            (some c) refl,
        tt,
      ),
    )
queries_since-IsSafe (errors n) since none h = (
  made-IsSafe error_totals (("since", moment since) ∷ ("sample_size", number n) ∷ []) none refl,
  tt,
)
queries_since-IsSafe (errors n) since (some c) h = (
  made-IsSafe error_totals (("since", moment since) ∷ ("sample_size", number n) ∷ []) (some c) refl,
  tt,
)
queries_since-IsSafe (top_conversations metric limit) since none h =
    let (r, e) = allowed_metric metric (ground arith) in
    rw e (
      made-IsSafe (ranked r) (("since", moment since) ∷ ("limit", number limit) ∷ []) none refl,
      tt,
    )
queries_since-IsSafe (top_conversations metric limit) since (some c) h =
    let (r, e) = allowed_metric metric (ground arith) in
    rw e (
      made-IsSafe (ranked r) (("since", moment since) ∷ ("limit", number limit) ∷ []) (some c) refl,
      tt,
    )
queries_since-IsSafe summary since none h =
    (made-IsSafe rollup (("since", moment since) ∷ []) none refl, tt)
queries_since-IsSafe summary since (some c) h =
    (made-IsSafe rollup (("since", moment since) ∷ []) (some c) refl, tt)

-- Whatever a request for a metric holds, it is refused or each of its queries has one of finitely many
-- SQL texts, into which nothing of the request is put, with the tenant's clause exactly if a tenant is given,
-- and the tenant as the value of its parameter.
pub queries-IsSafe :
    (py : WindowText) (now : ℕ) (metric : Metric) (window : String) (client : Option String)
    (made : List Query)
    → queries py now metric window client ≡ some made
    → All (IsSafe client) made
unfolding queries
queries-IsSafe py now metric window client made h = elim (Bool-cases (is_valid metric)) [
  | inr bad ↦ ground arith
  | inl good ↦ elim (Option-cases (since_for py now window)) [
    | inl none_left ↦ ground arith
    | inr (since, e) ↦
        let same : queries_since metric since client ≡ made = ground arith in
        subst (All (IsSafe client)) same (queries_since-IsSafe metric since client good)
  ]
]
