-- ===== src/Insights/Synthetic/Consistent.antt =====
-- What the generated events say of each other, and the summary of them.
use inferspect.Prelude.{
  ℕ, ◌+◌, ◌≡◌, refl, String, Bool, true, false, List, [], ◌∷◌, ◌++◌, arith, inl, inr, Bool-cases,
  str_eq, if◌then◌else◌,
}
use inferspect.Value.{Value, Fields, str, null, lookup, get}
use mathlib.Core.Bool.{false≢true}
use inferspect.Insights.Synthetic.{
  Formats, Draw, emits_tool, Counts, counted, no_counts, inference_event, tool_event, round, rounds,
  generate_synthetic_logs,
}

abbrev is_text : Value → String → Bool
is_text (str s) t = str_eq s t
is_text v t = false

-- The key of the event leads to this text.
abbrev pub says : String → String → Fields → Bool
says key t e = is_text (get key e) t

abbrev pub how_many : (Fields → Bool) → List Fields → ℕ
how_many test [] = 0
how_many test (e ∷ es) = (if test e then 1 else 0) + how_many test es

-- Each tool execution names the inference before it, whose request id is `last` at the start.
abbrev pub Parented : Value → List Fields → Type 0
Parented last [] = Unit
Parented last (e ∷ es) =
    (says "log_type" "tool_execution" e ≡ true → get "parent_inference_request_id" e ≡ last)
    × Parented (if says "log_type" "tool_execution" e then last else get "request_id" e) es

how_many-append :
    (test : Fields → Bool) (xs ys : List Fields)
    → how_many test (xs ++ ys) ≡ how_many test xs + how_many test ys
how_many-append test [] ys = omega arith
how_many-append test (x ∷ xs) ys = omega (arith, how_many-append test xs ys)

module _ (f : Formats) (session_id : String) where
  abbrev one_if : Bool → ℕ
  one_if b = if b then 1 else 0

  round-inferences :
      (i : ℕ) (d : Draw) → how_many (says "log_type" "inference") (round f session_id i d) ≡ 1
  unfolding inference_event tool_event get lookup
  round-inferences i d = elim (Bool-cases (emits_tool d)) [
    | inl yes_tool ↦ rw yes_tool refl
    | inr no_tool ↦ rw no_tool refl
  ]

  round-tools :
      (i : ℕ) (d : Draw)
      → how_many (says "log_type" "tool_execution") (round f session_id i d) ≡ one_if (emits_tool d)
  unfolding inference_event tool_event get lookup
  round-tools i d = elim (Bool-cases (emits_tool d)) [
    | inl yes_tool ↦ rw yes_tool refl
    | inr no_tool ↦ rw no_tool refl
  ]

  status_error : (b : Bool) → str_eq (if b then "error" else "ok") "error" ≡ b
  status_error true = refl
  status_error false = refl

  round-errors :
      (i : ℕ) (d : Draw)
      → how_many (says "status" "error") (round f session_id i d) ≡ one_if d.is_error
  unfolding inference_event tool_event get lookup
  round-errors i d = elim (Bool-cases (emits_tool d)) [
    | inl yes_tool ↦ rw yes_tool (rw (status_error d.is_error) (omega arith))
    | inr no_tool ↦ rw no_tool (rw (status_error d.is_error) (omega arith))
  ]

  round-Parented :
      (i : ℕ) (d : Draw) (last : Value) (es : List Fields)
      → ((v : Value) → Parented v es)
      → Parented last (round f session_id i d ++ es)
  unfolding inference_event tool_event get lookup
  round-Parented i d last es later = elim (Bool-cases (emits_tool d)) [
    | inl yes_tool ↦
        rw yes_tool ((λ h. absurd (false≢true h)), ((λ h. refl), later (str d.request_id)))
    | inr no_tool ↦ rw no_tool ((λ h. absurd (false≢true h)), later (str d.request_id))
  ]

  rounds-Parented :
      (i : ℕ) (ds : List Draw) (n : Counts) (last : Value)
      → Parented last (rounds f session_id i ds n).0
  unfolding rounds
  rounds-Parented i [] n last = tt
  rounds-Parented i (d ∷ ds) n last =
      round-Parented i d last (rounds f session_id (i + 1) ds (counted d n)).0
        (rounds-Parented (i + 1) ds (counted d n))

  -- What a count grows by.
  abbrev Adds : ℕ → List Draw → Counts → Type 0
  Adds i ds n =
      let (events, total) = rounds f session_id i ds n in
      (total.inference_events ≡ n.inference_events + how_many (says "log_type" "inference") events)
      × (total.tool_events ≡ n.tool_events + how_many (says "log_type" "tool_execution") events)
      × (total.error_events ≡ n.error_events + how_many (says "status" "error") events)

  rounds-Adds : (i : ℕ) (ds : List Draw) (n : Counts) → Adds i ds n
  unfolding rounds
  rounds-Adds i [] n = (omega arith, omega arith, omega arith)
  rounds-Adds i (d ∷ ds) n =
      let rest = (rounds f session_id (i + 1) ds (counted d n)).0 in
      let (inferences, tools, errors) = rounds-Adds (i + 1) ds (counted d n) in
      let first = round f session_id i d in
      (
        omega (
          arith,
          inferences,
          round-inferences i d,
          how_many-append (says "log_type" "inference") first rest,
        ),
        omega (
          arith,
          tools,
          round-tools i d,
          how_many-append (says "log_type" "tool_execution") first rest,
        ),
        omega (arith, errors, round-errors i d, how_many-append (says "status" "error") first rest),
      )

-- Whatever is drawn, the summary counts the inference events, the tool executions and the events with an
-- error among those that are submitted, and each tool execution names as its parent the inference that was
-- submitted before it.
pub generate_synthetic_logs-IsConsistent :
    (f : Formats) (session_id : String) (draws : List Draw)
    → let (events, n) = generate_synthetic_logs f session_id draws in
      (n.inference_events ≡ how_many (says "log_type" "inference") events)
      × (n.tool_events ≡ how_many (says "log_type" "tool_execution") events)
      × (n.error_events ≡ how_many (says "status" "error") events)
      × Parented null events
unfolding generate_synthetic_logs
generate_synthetic_logs-IsConsistent f session_id draws =
    let (inferences, tools, errors) = rounds-Adds f session_id 0 draws no_counts in
    (
      omega (arith, inferences),
      omega (arith, tools),
      omega (arith, errors),
      rounds-Parented f session_id 0 draws no_counts null,
    )
