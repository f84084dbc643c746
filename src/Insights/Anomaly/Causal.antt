-- ===== src/Insights/Anomaly/Causal.antt =====
-- What the verdict on a bucket depends on.
use mathlib.Core.List.{append-nil, append_assoc}
use inferspect.Prelude.{ℕ, ◌≡◌, sym, ap, ap₂, ◌∙◌, List, [], ◌∷◌, ◌++◌, map}
use inferspect.Insights.Anomaly.{
  Floats, Row, latency_of, error_rate_of, judge, scan_from, scan_series,
}

module _ (num : Floats) (user_since : ℕ) where
  scan_from-append :
      (ls rs : List num.F) (before : List (Row num)) (row : Row num)
      → scan_from num user_since ls rs (before ++ row ∷ [])
        ≡ scan_from num user_since ls rs before
          ++ judge num user_since
              (ls ++ map (latency_of num) before)
              (rs ++ map (error_rate_of num) before)
              row
  unfolding scan_from
  scan_from-append ls rs [] row =
      append-nil (judge num user_since ls rs row)
      ∙ ap₂ (λ l e. judge num user_since l e row) (sym (append-nil ls)) (sym (append-nil rs))
  scan_from-append ls rs (r ∷ before) row =
      let l = latency_of num r in
      let e = error_rate_of num r in
      let here = judge num user_since ls rs r in
      let more = scan_from num user_since (ls ++ l ∷ []) (rs ++ e ∷ []) before in
      ap (λ fs. here ++ fs) (scan_from-append (ls ++ l ∷ []) (rs ++ e ∷ []) before row)
      ∙ sym (append_assoc here more _)
      ∙ ap₂ (λ lats errs. (here ++ more) ++ judge num user_since lats errs row)
          (append_assoc ls (l ∷ []) (map (latency_of num) before))
          (append_assoc rs (e ∷ []) (map (error_rate_of num) before))

  -- A further bucket at the end of a series adds its own findings, which compare it with all buckets
  -- before it, and changes none of the findings on those.
  pub scan_series_causal :
      (before : List (Row num)) (row : Row num)
      → scan_series num user_since (before ++ row ∷ [])
        ≡ scan_series num user_since before
          ++ judge num user_since (map (latency_of num) before) (map (error_rate_of num) before) row
  unfolding scan_series
  scan_series_causal before row = scan_from-append [] [] before row
