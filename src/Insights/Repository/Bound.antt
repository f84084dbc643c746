-- ===== src/Insights/Repository/Bound.antt =====
-- The placeholders of each query, and the values that are bound to them.
pub mod Metrics
use Prim.Native.Char.{Char, code}
use inferspect.Prelude.{
  ℕ, ◌≡◌, String, Bool, true, false, ◌&&◌, ◌||◌, Option, List, [], ◌∷◌, ◌==◌, str_eq, str_append,
  if◌then◌else◌,
}
use inferspect.Insights.Metrics.Queries.{Param, moment, number, text, Query}
use inferspect.Insights.Repository.{
  session_inference_events, session_tool_events, sdk_overhead_quantiles, anomaly_series,
  connected_agents, recent_fingerprints_for_host, enforcement_events, direct_query, fallback_query,
  preview_query, tool_metrics,
}

-- Where the scan of a text stands: outside a placeholder, in its name so far, or in its type so far.
pub data Place : Type 0 where
  outside : Place
  in_name : String → Place
  in_type : String → String → Place

abbrev extended : String → Char → String
extended s c = str_append s (String.◌∷◌ c "")

-- The placeholders `{name:Type}` of an SQL text, in order.
unfoldable pub placeholders_from : Place → String → List (String × String)
placeholders_from place String.[] = []
placeholders_from outside (String.◌∷◌ c s) =
    placeholders_from (if code c == b'{' then in_name "" else outside) s
placeholders_from (in_name name) (String.◌∷◌ c s) =
    placeholders_from (if code c == b':' then in_type name "" else in_name (extended name c)) s
placeholders_from (in_type name type) (String.◌∷◌ c s) =
    let found = (name, type) ∷ placeholders_from outside s in
    let more = placeholders_from (in_type name (extended type c)) s in
    if code c == b'}' then found else more

unfoldable pub placeholders : String → List (String × String)
unfolding placeholders_from
placeholders sql = placeholders_from outside sql

-- The type of a placeholder takes the value.
abbrev pub fits : Param → String → Bool
fits (moment t) type = str_eq type "DateTime64(3)"
fits (number n) type = str_eq type "UInt32"
fits (text s) type = str_eq type "String" || str_eq type "UUID"

abbrev pub binds : List (String × Param) → String × String → Bool
binds [] placeholder = false
binds ((k, v) ∷ rest) (name, type) =
    let later = binds rest (name, type) in if str_eq k name then fits v type else later

abbrev pub all_bound : List (String × Param) → List (String × String) → Bool
all_bound params [] = true
all_bound params (p ∷ ps) = binds params p && all_bound params ps

abbrev pub is_named : String → List (String × String) → Bool
is_named k [] = false
is_named k ((name, type) ∷ ps) = str_eq name k || is_named k ps

abbrev pub all_named : List (String × Param) → List (String × String) → Bool
all_named [] ps = true
all_named ((k, v) ∷ rest) ps = is_named k ps && all_named rest ps

-- Each placeholder has a parameter of its type, and each parameter a placeholder.
abbrev pub IsBound : Query → Type 0
IsBound q =
    (all_bound q.params (placeholders q.sql) ≡ true)
    × (all_named q.params (placeholders q.sql) ≡ true)

-- A read of the repository, with its arguments but for the tenant.
pub data Read : Type 0 where
  read_session_inferences read_session_tools read_session_direct : (session_id : String) → Read
  read_overhead read_series read_agents read_tools : (since : ℕ) → Read
  read_fingerprints : (host_id : String) → (since : ℕ) → (limit : ℕ) → Read
  read_enforcements : (since : ℕ) → (host_id : Option String) → (limit : ℕ) → Read
  read_last_capture : Read
  read_preview : (host_id : String) → (fingerprint : String) → Read

abbrev pub query_for : Read → Option String → Query
query_for (read_session_inferences id) client = session_inference_events id client
query_for (read_session_tools id) client = session_tool_events id client
query_for (read_session_direct id) client = direct_query id client
query_for (read_overhead since) client = sdk_overhead_quantiles since client
query_for (read_series since) client = anomaly_series since client
query_for (read_agents since) client = connected_agents since client
query_for (read_tools since) client = tool_metrics since client
query_for (read_fingerprints host since limit) client =
    recent_fingerprints_for_host host since limit client
query_for (read_enforcements since host limit) client = enforcement_events since host limit client
query_for read_last_capture client = fallback_query client
query_for (read_preview host fingerprint) client = preview_query host fingerprint client
