-- ===== src/Insights/Anomaly.antt =====
-- apps/insights-api/insights_api/services/anomaly_service.py: buckets that stand out of their series.
pub mod Causal
pub mod Sorting
pub mod Flagged
use inferspect.Prelude.{
  ℕ, ◌+◌, String, Bool, true, false, ◌&&◌, ◌||◌, Option, none, some, List, [], ◌∷◌, ◌++◌, length,
  str_eq, ltb, leb, if◌then◌else◌,
}
use inferspect.Insights.Window.{WindowText, parse_window, before_now}

-- Python's floats, as far as the scores use them.
pub record Floats : Type 1 where
  pub F : Type 0
  pub of_int : ℕ → F
  pub add : F → F → F
  pub sub : F → F → F
  pub mul : F → F → F
  pub div : F → F → F
  pub abs : F → F
  pub sqrt : F → F
  pub neg : F → F
  pub lt : F → F → Bool
  pub eq : F → F → Bool

abbrev pub min_baseline_buckets : ℕ
min_baseline_buckets = 3

abbrev pub lookback : ℕ
lookback = 3600

-- `list.sort(key=...)`, which is stable.
unfoldable pub insert_by {ℓ} : {A : Type ℓ} → (A → A → Bool) → A → List A → List A
insert_by before x [] = x ∷ []
insert_by before x (y ∷ ys) = if before y x then y ∷ insert_by before x ys else x ∷ y ∷ ys

unfoldable pub sort_by {ℓ} : {A : Type ℓ} → (A → A → Bool) → List A → List A
sort_by before [] = []
sort_by before (x ∷ xs) = insert_by before x (sort_by before xs)

abbrev pub or_default {ℓ} : {A : Type ℓ} → A → Option A → A
or_default d none = d
or_default d (some a) = a

module _ (num : Floats) where
  abbrev pub z_threshold : num.F
  z_threshold = num.of_int 2

  abbrev pub sum_from : num.F → List num.F → num.F
  sum_from total [] = total
  sum_from total (x ∷ xs) = sum_from (num.add total x) xs

  abbrev pub squares : num.F → List num.F → List num.F
  squares mean [] = []
  squares mean (x ∷ xs) = num.mul (num.sub x mean) (num.sub x mean) ∷ squares mean xs

  abbrev pub less_one : List num.F → ℕ
  less_one [] = 0
  less_one (x ∷ xs) = length xs

  abbrev pub flat_score : num.F → num.F → num.F
  flat_score value mean =
      if num.eq value mean
      then num.of_int 0
      else if num.lt mean value
      then num.add z_threshold (num.of_int 1)
      else num.neg (num.add z_threshold (num.of_int 1))

  -- `_zscore`
  unfoldable pub zscore : num.F → List num.F → Option num.F
  zscore value prior =
      if ltb (length prior) min_baseline_buckets
      then none
      else (let mean = num.div (sum_from (num.of_int 0) prior) (num.of_int (length prior)) in
          let var =
            num.div (sum_from (num.of_int 0) (squares mean prior)) (num.of_int (less_one prior)) in
          let std = num.sqrt var in
          some (
            if num.eq std (num.of_int 0)
            then flat_score value mean
            else num.div (num.sub value mean) std))

  -- One row of the query, with what may be missing or null in it.
  pub record Row : Type 0 where
    pub provider : String
    pub model : String
    pub bucket : ℕ
    pub p95_latency : Option num.F
    pub req_count : Option ℕ
    pub error_count : Option ℕ

  pub record Finding : Type 0 where
    pub provider : String
    pub model : String
    pub bucket : ℕ
    pub metric : String
    pub value : num.F
    pub z_score : num.F

  abbrev pub latency_of : Row → num.F
  latency_of row = or_default (num.of_int 0) row.p95_latency

  -- `(errs / req) if req else 0.0`
  abbrev pub error_rate_of : Row → num.F
  error_rate_of row =
      let req = or_default 0 row.req_count in
      if ltb 0 req
      then num.div (num.of_int (or_default 0 row.error_count)) (num.of_int req)
      else num.of_int 0

  abbrev pub flag : Row → String → num.F → Option num.F → List Finding
  flag row metric value none = []
  flag row metric value (some z) =
      if num.lt z_threshold (num.abs z)
      then record {
        provider = row.provider;
        model = row.model;
        bucket = row.bucket;
        metric = metric;
        value = value;
        z_score = z;
      }
        ∷ []
      else []

  -- The findings of one bucket, against the values before it.
  unfoldable pub judge : ℕ → List num.F → List num.F → Row → List Finding
  judge user_since latencies rates row =
      if leb user_since row.bucket && leb min_baseline_buckets (length latencies)
      then flag row "latency_ms" (latency_of row) (zscore (latency_of row) latencies)
        ++ flag row "error_rate" (error_rate_of row) (zscore (error_rate_of row) rates)
      else []

  -- The loop of `_scan_series`.
  unfoldable pub scan_from : ℕ → List num.F → List num.F → List Row → List Finding
  scan_from user_since latencies rates [] = []
  scan_from user_since latencies rates (row ∷ rows) =
      judge user_since latencies rates row
      ++ scan_from user_since (latencies ++ latency_of row ∷ []) (rates ++ error_rate_of row ∷ [])
          rows

  unfoldable pub scan_series : ℕ → List Row → List Finding
  scan_series user_since rows = scan_from user_since [] [] rows

  abbrev pub earlier : Row → Row → Bool
  earlier a b = ltb a.bucket b.bucket

  -- `grouped[(provider, model)].append(row)`
  unfoldable pub add_to_group :
      Row → List (String × String × List Row) → List (String × String × List Row)
  add_to_group row [] = (row.provider, row.model, row ∷ []) ∷ []
  add_to_group row ((provider, model, rows) ∷ groups) =
      if str_eq provider row.provider && str_eq model row.model
      then (provider, model, rows ++ row ∷ []) ∷ groups
      else (provider, model, rows) ∷ add_to_group row groups

  unfoldable pub group_rows :
      List (String × String × List Row) → List Row → List (String × String × List Row)
  group_rows groups [] = groups
  group_rows groups (row ∷ rows) = group_rows (add_to_group row groups) rows

  unfoldable pub scan_groups : ℕ → List (String × String × List Row) → List Finding
  scan_groups user_since [] = []
  scan_groups user_since ((provider, model, rows) ∷ groups) =
      scan_series user_since (sort_by earlier rows) ++ scan_groups user_since groups

  -- The final order; `before_text` compares two texts as Python does.
  abbrev pub finding_before : (String → String → Bool) → Finding → Finding → Bool
  finding_before before_text a b =
      ltb a.bucket b.bucket
      || (leb a.bucket b.bucket
          && (before_text a.provider b.provider
              || (str_eq a.provider b.provider && before_text a.model b.model)))

  -- `anomalies`, whose query gives the rows since a time; `none` is a `ValueError`.
  abbrev pub anomalies_since :
      (String → String → Bool) → (ℕ → List Row) → ℕ → Option ℕ → Option (List Finding)
  anomalies_since before_text query now none = none
  anomalies_since before_text query now (some window) =
      let user_since = or_default 0 (before_now now (some window)) in
      let rows = query (or_default 0 (before_now now (some (window + lookback)))) in
      some (sort_by (finding_before before_text) (scan_groups user_since (group_rows [] rows)))

  unfoldable pub anomalies :
      WindowText → (String → String → Bool) → (ℕ → List Row) → ℕ → String → Option (List Finding)
  anomalies py before_text query now window =
      anomalies_since before_text query now (parse_window py window)
