-- ===== src/Insights/Timeline.antt =====
-- apps/insights-api/insights_api/services/session_service.py: the events of a session by their time.
pub mod Ordered
use inferspect.Prelude.{ℕ, String, Bool, List, [], ◌∷◌, ◌++◌, map, length, ltb}
use inferspect.Insights.Anomaly.{sort_by}

-- An event of either kind with its `started_at`; `row` is the rest of it.
pub record TimelineEvent {ℓ} (A : Type ℓ) : Type ℓ where
  pub event_type : String
  pub started_at : ℕ
  pub row : A

pub record Timeline {ℓ} (A : Type ℓ) : Type ℓ where
  pub session_id : String
  pub inference_count : ℕ
  pub tool_count : ℕ
  pub timeline : List (TimelineEvent A)

module _ {ℓ} {A : Type ℓ} where
  -- `{"event_type": kind, **ev}`
  abbrev pub typed : String → List (ℕ × A) → List (TimelineEvent A)
  typed kind [] = []
  typed kind ((started_at, row) ∷ events) =
      record { event_type = kind; started_at = started_at; row = row } ∷ typed kind events

  abbrev pub starts_before : TimelineEvent A → TimelineEvent A → Bool
  starts_before a b = ltb a.started_at b.started_at

  -- The two lists are what the queries give.
  unfoldable pub session_timeline : String → List (ℕ × A) → List (ℕ × A) → Timeline A
  session_timeline session_id inference_events tool_events = record {
    session_id = session_id;
    inference_count = length inference_events;
    tool_count = length tool_events;
    timeline =
        sort_by starts_before
          (typed "inference" inference_events ++ typed "tool_execution" tool_events);
  }
