-- ===== src/Tests/Anomalies.antt =====
-- The anomalies of a series over whole numbers, the queries of a metric and the timeline of a session.
use inferspect.Prelude.{
  ℕ, ◌+◌, ◌-◌, ◌*◌, ◌/◌, ◌≡◌, refl, String, false, none, some, List, [], ◌∷◌, ◌++◌, All, map, ltb,
  ◌==◌,
}
use inferspect.Insights.Window.{WindowText, parse_window, since_for}
use inferspect.Insights.Timeline.{session_timeline}
use inferspect.Insights.Timeline.Ordered.{IsOrdered, at_time, given_at, session_timeline-IsOrdered}
use inferspect.Insights.Metrics.{cost, queries_since, queries}
use inferspect.Insights.Metrics.Queries.{Query}
use inferspect.Insights.Metrics.Safe.{IsSafe, queries-IsSafe}
use inferspect.Insights.Anomaly.{
  Floats, Row, Finding, latency_of, error_rate_of, judge, zscore, scan_from, scan_series,
  group_rows, add_to_group, sort_by, insert_by, scan_groups, anomalies,
}
use inferspect.Insights.Anomaly.Causal.{scan_series_causal}
use inferspect.Insights.Anomaly.Flagged.{IsFlagged, anomalies-IsFlagged}

abbrev numbers : Floats
numbers = record {
  F = ℕ;
  of_int = λ n. n;
  add = λ a b. a + b;
  sub = λ a b. a - b;
  mul = λ a b. a * b;
  div = λ a b. a / b;
  abs = λ a. a;
  sqrt = λ a. a;
  neg = λ a. 0;
  lt = ltb;
  eq = λ a b. a == b;
}

abbrev row : ℕ → ℕ → Row numbers
row bucket latency = record {
  provider = "openai";
  model = "gpt";
  bucket = bucket;
  p95_latency = some latency;
  req_count = some 1;
  error_count = none;
}

abbrev steady : List (Row numbers)
steady = row 7000 10 ∷ row 7100 10 ∷ row 7200 10 ∷ []

peak_added :
    scan_series numbers 7250 (steady ++ row 7300 90 ∷ [])
    ≡ scan_series numbers 7250 steady
      ++ judge numbers 7250
          (map (latency_of numbers) steady)
          (map (error_rate_of numbers) steady)
          (row 7300 90)
peak_added = scan_series_causal numbers 7250 steady (row 7300 90)

abbrev python : WindowText
python = record { strip = λ s. s; groups = λ s. some ("60", "s"); to_int = λ s. 60; lower = λ s. s }

abbrev series : List (Row numbers)
series = steady ++ row 7300 90 ∷ []

abbrev peak : Finding numbers
peak = record {
  provider = "openai";
  model = "gpt";
  bucket = 7300;
  metric = "latency_ms";
  value = 90;
  z_score = 3;
}

one_peak : anomalies numbers python (λ a b. false) (λ since. series) 7310 "60s" ≡ some (peak ∷ [])
unfolding anomalies parse_window scan_groups scan_series scan_from judge zscore group_rows
    add_to_group sort_by insert_by
one_peak = refl

anomalies-IsFlagged_example :
    (seconds : ℕ) × (parse_window python "60s" ≡ some seconds)
    × All (IsFlagged numbers (7310 - seconds)) (peak ∷ [])
anomalies-IsFlagged_example =
    anomalies-IsFlagged numbers python (λ a b. false) (λ since. series) 7310 "60s" (peak ∷ [])
      one_peak

-- The costs of one tenant.
abbrev costs : List Query
costs = queries_since (cost "provider") 7250 (some "acme")

made : queries python 7310 (cost "provider") "60s" (some "acme") ≡ some costs
unfolding queries since_for parse_window
made = refl

queries-IsSafe_example : All (IsSafe (some "acme")) costs
queries-IsSafe_example = queries-IsSafe python 7310 (cost "provider") "60s" (some "acme") costs made

abbrev questions : List (ℕ × String)
questions = (5, "q1") ∷ (9, "q2") ∷ []

abbrev searches : List (ℕ × String)
searches = (9, "t1") ∷ (7, "t2") ∷ []

session_timeline-IsOrdered_example :
    let events = (session_timeline "s1" questions searches).timeline in
    IsOrdered events
    × ((t : ℕ)
        → at_time t events
          ≡ given_at "inference" t questions ++ given_at "tool_execution" t searches)
session_timeline-IsOrdered_example = session_timeline-IsOrdered "s1" questions searches
