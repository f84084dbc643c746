-- ===== src/Insights/Listings.antt =====
-- apps/insights-api/insights_api/services/agents_service.py: the listings of hosts and of the
-- conversations on a host.
use inferspect.Prelude.{
  ℕ, ◌+◌, ◌-◌, ◌*◌, String, Bool, false, Option, none, some, List, map, str_take, ltb,
}

-- A column that should hold a time, in microseconds, or whatever else came back.
pub data Cell : Type 0 where
  time : ℕ → Cell
  other : Option String → Cell

-- `datetime.isoformat`
abbrev pub shown : (ℕ → String) → Cell → Option String
shown isoformat (time t) = some (isoformat t)
shown isoformat (other o) = o

-- `int(n or 0)`
abbrev pub count_of : Option ℕ → ℕ
count_of none = 0
count_of (some n) = n

pub record AgentRow : Type 0 where
  pub host_id : Option String
  pub last_seen : Cell
  pub event_count : Option ℕ
  pub container_id : Option String
  pub distinct_pids : Option ℕ
  pub distinct_providers : Option ℕ

pub record Agent : Type 0 where
  pub host_id : Option String
  pub last_seen : Option String
  pub is_live : Bool
  pub event_count : ℕ
  pub container_id : Option String
  pub distinct_pids : ℕ
  pub distinct_providers : ℕ

-- Less than 120 seconds ago, or in the future.
abbrev pub is_live_at : ℕ → Cell → Bool
is_live_at now (time t) = ltb now (t + 120 * 1000000)
is_live_at now (other o) = false

abbrev agent_of : (ℕ → String) → ℕ → AgentRow → Agent
agent_of isoformat now r = record {
  host_id = r.host_id;
  last_seen = shown isoformat r.last_seen;
  is_live = is_live_at now r.last_seen;
  event_count = count_of r.event_count;
  container_id = r.container_id;
  distinct_pids = count_of r.distinct_pids;
  distinct_providers = count_of r.distinct_providers;
}

-- The start of a window of hours before `now`.
abbrev pub hours_before : ℕ → ℕ → ℕ
hours_before now hours = now - hours * 3600 * 1000000

-- `list_agents`; the query gives the rows since a time for a client.
unfoldable pub list_agents :
    (ℕ → String) → (ℕ → Option String → List AgentRow) → ℕ → Option String → ℕ → List Agent
list_agents isoformat connected_agents now client window_hours =
    map (agent_of isoformat now) (connected_agents (hours_before now window_hours) client)

pub record FingerprintRow : Type 0 where
  pub fingerprint : Option String
  pub first_seen : Cell
  pub last_seen : Cell
  pub request_count : Option ℕ
  pub sample_preview : Option String
  pub model : Option String
  pub provider : Option String
  pub distinct_pids : Option ℕ

pub record HostFingerprint : Type 0 where
  pub fingerprint : Option String
  pub first_seen : Option String
  pub last_seen : Option String
  pub request_count : ℕ
  pub preview : String
  pub model : Option String
  pub provider : Option String
  pub distinct_pids : ℕ

abbrev preview_of : Option String → String
preview_of none = ""
preview_of (some s) = str_take 160 s

abbrev host_fingerprint_of : (ℕ → String) → FingerprintRow → HostFingerprint
host_fingerprint_of isoformat r = record {
  fingerprint = r.fingerprint;
  first_seen = shown isoformat r.first_seen;
  last_seen = shown isoformat r.last_seen;
  request_count = count_of r.request_count;
  preview = preview_of r.sample_preview;
  model = r.model;
  provider = r.provider;
  distinct_pids = count_of r.distinct_pids;
}

unfoldable pub list_host_fingerprints :
    (ℕ → String)
    → (String → ℕ → ℕ → Option String → List FingerprintRow)
    → ℕ
    → String
    → ℕ
    → ℕ
    → Option String
    → List HostFingerprint
list_host_fingerprints isoformat recent_fingerprints now host_id window_hours limit client =
    map (host_fingerprint_of isoformat)
      (recent_fingerprints host_id (hours_before now window_hours) limit client)
