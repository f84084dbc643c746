-- ===== src/Insights/Anomaly/Flagged.antt =====
-- What is true of every finding.
use inferspect.Prelude.{
  ℕ, ◌-◌, ◌≤◌, ◌≡◌, refl, ap, inl, inr, Bool, true, ◌&&◌, String, Option, none, some, List, [], ◌∷◌,
  ◌++◌, arith, All, length, Bool-cases, leb,
}
use std.Path.{subst}
use inferspect.Insights.Window.{WindowText, parse_window}
use inferspect.Insights.Anomaly.{
  Floats, z_threshold, zscore, Row, Finding, flag, judge, scan_from, scan_series, sort_by, earlier,
  group_rows, scan_groups, finding_before, or_default, anomalies_since, anomalies, latency_of,
  error_rate_of,
}
use inferspect.Insights.Anomaly.Sorting.{sort_by-All}

module _ {ℓ κ} {A : Type ℓ} (P : A → Type κ) where
  All-append : (xs ys : List A) → All P xs → All P ys → All P (xs ++ ys)
  All-append [] ys ps qs = qs
  All-append (x ∷ xs) ys ps qs = (ps.0, All-append xs ys ps.1 qs)

module _ (num : Floats) (user_since : ℕ) where
  -- A finding of a visible bucket whose score is beyond the threshold.
  abbrev pub IsFlagged : Finding num → Type 0
  IsFlagged f = (user_since ≤ f.bucket) × (num.lt (z_threshold num) (num.abs f.z_score) ≡ true)

  flag-IsFlagged :
      (row : Row num) (metric : String) (value : num.F) (z : Option num.F)
      → user_since ≤ row.bucket
      → All IsFlagged (flag num row metric value z)
  flag-IsFlagged row metric value none h = tt
  flag-IsFlagged row metric value (some z) h =
      elim (Bool-cases (num.lt (z_threshold num) (num.abs z))) [
        | inl e ↦ rw e ((h, e), tt)
        | inr e ↦ rw e tt
      ]

  judge-IsFlagged :
      (ls rs : List num.F) (row : Row num) → All IsFlagged (judge num user_since ls rs row)
  unfolding judge
  judge-IsFlagged ls rs row = elim (Bool-cases (leb user_since row.bucket && leb 3 (length ls))) [
    | inr e ↦ rw e tt
    | inl e ↦
        let visible : user_since ≤ row.bucket = ground arith in
        let l = latency_of num row in
        let r = error_rate_of num row in
        rw e (
          All-append IsFlagged (flag num row "latency_ms" l (zscore num l ls)) _
            (flag-IsFlagged row "latency_ms" l (zscore num l ls) visible)
            (flag-IsFlagged row "error_rate" r (zscore num r rs) visible))
  ]

  scan_from-IsFlagged :
      (ls rs : List num.F) (rows : List (Row num))
      → All IsFlagged (scan_from num user_since ls rs rows)
  unfolding scan_from
  scan_from-IsFlagged ls rs [] = tt
  scan_from-IsFlagged ls rs (row ∷ rows) =
      All-append IsFlagged (judge num user_since ls rs row) _ (judge-IsFlagged ls rs row) (
        scan_from-IsFlagged (ls ++ latency_of num row ∷ []) (rs ++ error_rate_of num row ∷ []) rows)

  scan_groups-IsFlagged :
      (groups : List (String × String × List (Row num)))
      → All IsFlagged (scan_groups num user_since groups)
  unfolding scan_groups scan_series
  scan_groups-IsFlagged [] = tt
  scan_groups-IsFlagged ((provider, model, rows) ∷ groups) =
      All-append IsFlagged (scan_from num user_since [] [] (sort_by (earlier num) rows)) _
        (scan_from-IsFlagged [] [] (sort_by (earlier num) rows)) (scan_groups-IsFlagged groups)

module _ (num : Floats) where
  -- Every anomaly that is reported for a window lies in the window, although the query looks an hour
  -- further back, and has a score beyond the threshold.
  pub anomalies-IsFlagged :
      (py : WindowText) (before_text : String → String → Bool) (query : ℕ → List (Row num))
      (now : ℕ) (window : String) (findings : List (Finding num))
      → anomalies num py before_text query now window ≡ some findings
      → (seconds : ℕ) × (parse_window py window ≡ some seconds)
        × All (IsFlagged num (now - seconds)) findings
  unfolding anomalies
  anomalies-IsFlagged py before_text query now window findings h =
      by_window (parse_window py window) h
    where
      by_window :
          (parsed : Option ℕ)
          → anomalies_since num before_text query now parsed ≡ some findings
          → (seconds : ℕ) × (parsed ≡ some seconds) × All (IsFlagged num (now - seconds)) findings
      by_window none h' = cc
      by_window (some seconds) h' = (
        seconds,
        refl,
        subst (λ fs. All (IsFlagged num (now - seconds)) fs) (ap (or_default []) h')
            (sort_by-All (finding_before num before_text) (IsFlagged num (now - seconds)) _
              (scan_groups-IsFlagged num (now - seconds) (group_rows num [] _))),
      )
