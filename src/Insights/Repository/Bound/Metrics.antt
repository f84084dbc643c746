-- ===== src/Insights/Repository/Bound/Metrics.antt =====
-- The same of the queries of the metrics.
use inferspect.Prelude.{ℕ, ◌≡◌, refl, sym, String, true, Option, none, some, [], ◌∷◌, All, arith}
use inferspect.Insights.Metrics.Queries.{
  moment, number, query_of, latency_buckets_sql, throughput_buckets_sql, error_counts_sql,
  cost_by_group_sql, top_cost_conversations_sql, top_conversations_sql, summary_rollup_sql,
}
use inferspect.Insights.Metrics.{
  Metric, latency, throughput, cost, errors, top_conversations, summary, is_valid, queries_since,
}
use inferspect.Insights.Metrics.Safe.{
  Group, by_model, by_provider, ungrouped, group_name, Ranking, by_latency, by_tokens, by_cost,
  ranking_name, allowed_group, allowed_metric,
}
use inferspect.Insights.Repository.Bound.{IsBound, placeholders}
use std.Path.{subst}

latency-IsBound :
    (x : Group) (since n : ℕ) (client : Option String)
    → IsBound (query_of (latency_buckets_sql (group_name x)) (("since", moment since) ∷ []) client)
unfolding placeholders latency_buckets_sql
latency-IsBound by_model since n none = (refl, refl)
latency-IsBound by_model since n (some client) = (refl, refl)
latency-IsBound by_provider since n none = (refl, refl)
latency-IsBound by_provider since n (some client) = (refl, refl)
latency-IsBound ungrouped since n none = (refl, refl)
latency-IsBound ungrouped since n (some client) = (refl, refl)

throughput-IsBound :
    (x : Group) (since n : ℕ) (client : Option String)
    → IsBound
        (query_of (throughput_buckets_sql (group_name x)) (("since", moment since) ∷ []) client)
unfolding placeholders throughput_buckets_sql
throughput-IsBound by_model since n none = (refl, refl)
throughput-IsBound by_model since n (some client) = (refl, refl)
throughput-IsBound by_provider since n none = (refl, refl)
throughput-IsBound by_provider since n (some client) = (refl, refl)
throughput-IsBound ungrouped since n none = (refl, refl)
throughput-IsBound ungrouped since n (some client) = (refl, refl)

cost-IsBound :
    (x : Group) (since n : ℕ) (client : Option String)
    → IsBound (query_of (cost_by_group_sql (group_name x)) (("since", moment since) ∷ []) client)
unfolding placeholders cost_by_group_sql
cost-IsBound by_model since n none = (refl, refl)
cost-IsBound by_model since n (some client) = (refl, refl)
cost-IsBound by_provider since n none = (refl, refl)
cost-IsBound by_provider since n (some client) = (refl, refl)
cost-IsBound ungrouped since n none = (refl, refl)
cost-IsBound ungrouped since n (some client) = (refl, refl)

ranked-IsBound :
    (x : Ranking) (since n : ℕ) (client : Option String)
    → IsBound (
        query_of
          (top_conversations_sql (ranking_name x))
          (("since", moment since) ∷ ("limit", number n) ∷ [])
          client)
unfolding placeholders top_conversations_sql
ranked-IsBound by_latency since n none = (refl, refl)
ranked-IsBound by_latency since n (some client) = (refl, refl)
ranked-IsBound by_tokens since n none = (refl, refl)
ranked-IsBound by_tokens since n (some client) = (refl, refl)
ranked-IsBound by_cost since n none = (refl, refl)
ranked-IsBound by_cost since n (some client) = (refl, refl)

costly-IsBound :
    (since : ℕ) (client : Option String)
    → IsBound (
        query_of top_cost_conversations_sql
          (("since", moment since) ∷ ("limit", number 10) ∷ [])
          client)
unfolding placeholders top_cost_conversations_sql
costly-IsBound since none = (refl, refl)
costly-IsBound since (some client) = (refl, refl)

-- Every query of a valid metric gives each placeholder of its SQL a value of its type, and names no
-- parameter that the SQL does not have.
pub queries_since-IsBound :
    (metric : Metric) (since : ℕ) (client : Option String)
    → is_valid metric ≡ true
    → All IsBound (queries_since metric since client)
unfolding queries_since placeholders error_counts_sql top_cost_conversations_sql summary_rollup_sql
queries_since-IsBound (latency group) since client h =
    let (g, e) = allowed_group group h in
    (
      subst (λ x. IsBound (query_of (latency_buckets_sql x) (("since", moment since) ∷ []) client))
          (sym e) (latency-IsBound g since 0 client),
      tt,
    )
queries_since-IsBound (throughput group) since client h =
    let (g, e) = allowed_group group h in
    (
      subst
          (λ x. IsBound (query_of (throughput_buckets_sql x) (("since", moment since) ∷ []) client))
          (sym e) (throughput-IsBound g since 0 client),
      tt,
    )
queries_since-IsBound (cost group) since client h =
    let (g, e) = allowed_group group h in
    (
      subst (λ x. IsBound (query_of (cost_by_group_sql x) (("since", moment since) ∷ []) client))
          (sym e) (cost-IsBound g since 0 client),
      (costly-IsBound since client, tt),
    )
queries_since-IsBound (errors n) since none h = ((refl, refl), tt)
queries_since-IsBound (errors n) since (some client) h = ((refl, refl), tt)
queries_since-IsBound (top_conversations metric limit) since client h =
    let (r, e) = allowed_metric metric (ground arith) in
    (
      subst
          (λ x. IsBound (
            query_of (top_conversations_sql x)
              (("since", moment since) ∷ ("limit", number limit) ∷ []) client))
          (sym e) (ranked-IsBound r since limit client),
      tt,
    )
queries_since-IsBound summary since none h = ((refl, refl), tt)
queries_since-IsBound summary since (some client) h = ((refl, refl), tt)
