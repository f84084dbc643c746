-- ===== src/Insights/Timeline/Ordered.antt =====
-- The order of a timeline.
use inferspect.Prelude.{
  ℕ, ◌≤◌, ◌≡◌, refl, ap, ap₂, ◌∙◌, arith, String, ◌==◌, if◌then◌else◌, List, [], ◌∷◌, ◌++◌,
}
use inferspect.Insights.Anomaly.{insert_by, sort_by}
use inferspect.Insights.Anomaly.Sorting.{IsSortedBy, sort_by-IsSortedBy}
use native.Mathlib.Nat.{le_trans}
use inferspect.Insights.Timeline.{TimelineEvent, typed, starts_before, session_timeline}

module _ {ℓ} {A : Type ℓ} where
  abbrev IsNotAfter : TimelineEvent A → TimelineEvent A → Type 0
  IsNotAfter a b = a.started_at ≤ b.started_at

  abbrev pub IsOrdered : List (TimelineEvent A) → Type 0
  IsOrdered = IsSortedBy IsNotAfter

  sort_by-IsOrdered : (es : List (TimelineEvent A)) → IsOrdered (sort_by starts_before es)
  sort_by-IsOrdered =
      sort_by-IsSortedBy starts_before IsNotAfter (λ a b c h k. le_trans h k)
        (λ a b h. ground arith) (λ a b h. ground arith)

  -- The events of one time, in their order.
  abbrev pub at_time : ℕ → List (TimelineEvent A) → List (TimelineEvent A)
  at_time t [] = []
  at_time t (e ∷ es) = let rest = at_time t es in if e.started_at == t then e ∷ rest else rest

  -- The events of one kind and one time, in the order of the query.
  abbrev pub given_at : String → ℕ → List (ℕ × A) → List (TimelineEvent A)
  given_at kind t [] = []
  given_at kind t ((at, row) ∷ rest) =
      let later = given_at kind t rest in
      if at == t then record { event_type = kind; started_at = at; row = row } ∷ later else later

  at_time-append :
      (t : ℕ) (xs ys : List (TimelineEvent A)) → at_time t (xs ++ ys) ≡ at_time t xs ++ at_time t ys
  at_time-append t [] ys = refl
  at_time-append t (x ∷ xs) ys = ground (arith, at_time-append t xs ys)

  at_time-typed :
      (kind : String) (t : ℕ) (events : List (ℕ × A))
      → at_time t (typed kind events) ≡ given_at kind t events
  at_time-typed kind t [] = refl
  at_time-typed kind t ((at, row) ∷ rest) = ground (arith, at_time-typed kind t rest)

  at_time-insert_by :
      (t : ℕ) (x : TimelineEvent A) (es : List (TimelineEvent A))
      → at_time t (insert_by starts_before x es) ≡ at_time t (x ∷ es)
  unfolding insert_by
  at_time-insert_by t x [] = refl
  at_time-insert_by t x (y ∷ ys) = ground (arith, at_time-insert_by t x ys)

  at_time-sort_by :
      (t : ℕ) (es : List (TimelineEvent A)) → at_time t (sort_by starts_before es) ≡ at_time t es
  unfolding sort_by
  at_time-sort_by t [] = refl
  at_time-sort_by t (e ∷ es) =
      at_time-insert_by t e (sort_by starts_before es)
      ∙ ap (λ rest. if e.started_at == t then e ∷ rest else rest) (at_time-sort_by t es)

  -- A timeline is in the order of time, and has, for each time, exactly the events of that time that the
  -- queries gave, those of the model before those of the tools and each kind in its order.
  pub session_timeline-IsOrdered :
      (session_id : String) (inference_events tool_events : List (ℕ × A))
      → let events = (session_timeline session_id inference_events tool_events).timeline in
        IsOrdered events
        × ((t : ℕ)
            → at_time t events
              ≡ given_at "inference" t inference_events ++ given_at "tool_execution" t tool_events)
  unfolding session_timeline
  session_timeline-IsOrdered session_id inference_events tool_events =
      let all = typed "inference" inference_events ++ typed "tool_execution" tool_events in
      (
        sort_by-IsOrdered all,
        λ t.
            at_time-sort_by t all
            ∙ at_time-append t (typed "inference" inference_events)
                (typed "tool_execution" tool_events)
            ∙ ap₂ (λ xs ys. xs ++ ys) (at_time-typed "inference" t inference_events)
                (at_time-typed "tool_execution" t tool_events),
      )
