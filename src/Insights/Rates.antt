-- ===== src/Insights/Rates.antt =====
-- apps/insights-api/insights_api/services: what metrics_service.py and tools_service.py compute from the rows.
use inferspect.Prelude.{
  ℕ, ◌≡◌, refl, ◌∙◌, inl, inr, Bool-cases, String, Option, none, some, List, [], ◌∷◌, ◌==◌, map,
  if◌then◌else◌,
}
use inferspect.Insights.Anomaly.{Floats, or_default}

-- `int(row.get(key) or 0)`
abbrev pub count_of : Option ℕ → ℕ
count_of none = 0
count_of (some n) = n

-- A row of the throughput, whose other columns are passed on.
pub record ThroughputRow (R : Type 0) : Type 0 where
  pub req_count : Option ℕ
  pub tokens : Option ℕ
  pub columns : R

module _ (num : Floats) where
  -- `float(row.get(key) or 0.0)`
  abbrev pub float_of : Option num.F → num.F
  float_of x = or_default (num.of_int 0) x

  -- `(errors / total) if total else 0.0`
  unfoldable pub error_rate : ℕ → ℕ → num.F
  error_rate errors total =
      if total == 0 then num.of_int 0 else num.div (num.of_int errors) (num.of_int total)

  -- `row["req_per_min"]` and `row["tokens_per_min"]`, of buckets of five minutes.
  unfoldable pub per_minute : Option ℕ → num.F
  per_minute n = num.div (num.of_int (count_of n)) (num.of_int 5)

  pub record Throughput (R : Type 0) : Type 0 where
    pub row : ThroughputRow R
    pub req_per_min : num.F
    pub tokens_per_min : num.F

  unfoldable pub with_rates : {R : Type 0} → ThroughputRow R → Throughput R
  with_rates r = record {
    row = r;
    req_per_min = per_minute r.req_count;
    tokens_per_min = per_minute r.tokens;
  }

  pub record SummaryRow : Type 0 where
    pub total_requests : Option ℕ
    pub total_errors : Option ℕ
    pub total_tokens : Option ℕ
    pub total_cost_usd : Option num.F
    pub p50_latency : Option num.F
    pub p95_latency : Option num.F

  pub record Summary : Type 0 where
    pub window : String
    pub total_requests : ℕ
    pub total_tokens : ℕ
    pub total_cost_usd : num.F
    pub error_rate : num.F
    pub p50_latency : num.F
    pub p95_latency : num.F

  -- The row that stands for a query without rows.
  abbrev no_summary : SummaryRow
  no_summary = record {
    total_requests = some 0;
    total_errors = some 0;
    total_tokens = some 0;
    total_cost_usd = some (num.of_int 0);
    p50_latency = some (num.of_int 0);
    p95_latency = some (num.of_int 0);
  }

  abbrev pub first_summary : List SummaryRow → SummaryRow
  first_summary [] = no_summary
  first_summary (r ∷ rs) = r

  unfoldable pub summary : String → List SummaryRow → Summary
  summary window rows =
      let row = first_summary rows in
      record {
        window = window;
        total_requests = count_of row.total_requests;
        total_tokens = count_of row.total_tokens;
        total_cost_usd = float_of row.total_cost_usd;
        error_rate = error_rate (count_of row.total_errors) (count_of row.total_requests);
        p50_latency = float_of row.p50_latency;
        p95_latency = float_of row.p95_latency;
      }

  pub record OverheadRow : Type 0 where
    pub sample_size : Option ℕ
    pub p50_ms : Option num.F
    pub p95_ms : Option num.F
    pub p99_ms : Option num.F
    pub max_ms : Option num.F
    pub p50_api_ms : Option num.F
    pub p95_api_ms : Option num.F

  pub record Overhead : Type 0 where
    pub window : String
    pub sample_size : ℕ
    pub p50_ms : num.F
    pub p95_ms : num.F
    pub p99_ms : num.F
    pub max_ms : num.F
    pub p50_api_ms : num.F
    pub p95_api_ms : num.F

  -- A query without rows gives an empty row.
  abbrev pub first_overhead : List OverheadRow → OverheadRow
  first_overhead [] = record {
    sample_size = none;
    p50_ms = none;
    p95_ms = none;
    p99_ms = none;
    max_ms = none;
    p50_api_ms = none;
    p95_api_ms = none;
  }
  first_overhead (r ∷ rs) = r

  unfoldable pub sdk_overhead : String → List OverheadRow → Overhead
  sdk_overhead window rows =
      let row = first_overhead rows in
      record {
        window = window;
        sample_size = count_of row.sample_size;
        p50_ms = float_of row.p50_ms;
        p95_ms = float_of row.p95_ms;
        p99_ms = float_of row.p99_ms;
        max_ms = float_of row.max_ms;
        p50_api_ms = float_of row.p50_api_ms;
        p95_api_ms = float_of row.p95_api_ms;
      }

  pub record ToolRow : Type 0 where
    pub tool_name : String
    pub call_count : Option ℕ
    pub error_count : Option ℕ
    pub p50_latency : Option num.F
    pub p95_latency : Option num.F
    pub total_bytes : Option ℕ

  pub record ToolMetrics : Type 0 where
    pub tool_name : String
    pub call_count : ℕ
    pub error_count : ℕ
    pub error_rate : num.F
    pub p50_latency_ms : num.F
    pub p95_latency_ms : num.F
    pub total_bytes : ℕ

  unfoldable pub enriched : ToolRow → ToolMetrics
  enriched r = record {
    tool_name = r.tool_name;
    call_count = count_of r.call_count;
    error_count = count_of r.error_count;
    error_rate = error_rate (count_of r.error_count) (count_of r.call_count);
    p50_latency_ms = float_of r.p50_latency;
    p95_latency_ms = float_of r.p95_latency;
    total_bytes = count_of r.total_bytes;
  }

  abbrev pub tools : List ToolRow → List ToolMetrics
  tools rows = map enriched rows

-- No metric divides by zero: the rate is the same whatever the division by zero gives.
pub error_rate-divides :
    (num : Floats) (wild : num.F → num.F) (errors total : ℕ)
    → let safe = record num {
      div = λ a b. if num.eq b (num.of_int 0) then wild a else num.div a b;
    } in
      num.eq (num.of_int total) (num.of_int 0) ≡ (total == 0)
      → error_rate safe errors total ≡ error_rate num errors total
unfolding error_rate
error_rate-divides num wild errors total exact = elim (Bool-cases (total == 0)) [
  | inl none_at_all ↦ rw none_at_all refl
  | inr some_at_all ↦ rw some_at_all (rw (exact ∙ some_at_all) refl)
]
