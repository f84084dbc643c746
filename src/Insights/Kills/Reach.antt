-- ===== src/Insights/Kills/Reach.antt =====
-- Where a kill arrives: the control routes of apps/ingestion-service, behind the insights service's
-- key.
use inferspect.Prelude.{
  ℕ, ◌≡◌, String, true, false, Option, List, [], ◌∷◌, ◌++◌, str_eq, str_append, if◌then◌else◌,
}
use inferspect.Value.{Fields, obj, end}
use inferspect.Value.Codec.{Codec}
use inferspect.Valkey.Lists.{Lists, ListLaws}
use inferspect.Ingestion.Control.Queue.{queue_key}
use inferspect.Ingestion.Control.Service.{
  Stamp, is_bad_fingerprint, block_fingerprint, block_anchor,
}
use inferspect.Ingestion.Http.{Answer, accepted}
use inferspect.Ingestion.Http.Auth.{KeyMap}
use inferspect.Ingestion.Http.Control.{KillRequest, kill, kill_by_content, unblock}
use inferspect.Insights.Anchor.Body.{FullAnchor, anchored, value_error, raised}
use inferspect.Insights.Kills.Audit.{posts}
use inferspect.Insights.Kills.{
  Payload, kill_payload, anchor_payload, unblock_payload, Effect, recorded, warned, Environment,
  post_of,
}

-- A payload at its route.
abbrev pub serve :
    (v : Lists)
    → Codec
    → ℕ
    → KeyMap
    → Option String
    → Stamp
    → Payload
    → v.Store
    → Answer Fields × v.Store
serve v c ttl keys key st (kill_payload request operator) s = kill v c ttl keys key st request s
serve v c ttl keys key st (anchor_payload request operator) s =
    kill_by_content v c ttl keys key st request s
serve v c ttl keys key st (unblock_payload request) s = unblock v c ttl keys key st request s

-- The path of that route, below the prefix `/v1/control` with which `ingestion_control_url` ends.
abbrev pub path_of : Payload → String
path_of (kill_payload request operator) = "/kill"
path_of (anchor_payload request operator) = "/kill-anchor"
path_of (unblock_payload request) = "/unblock"

-- What the host is told to do.
abbrev pub command_of : Environment → Stamp → FullAnchor → KillRequest → Fields
command_of env st (anchored anchor hash) request =
    block_anchor st (env.b64 anchor) (env.b64 hash) request.reason request.ttl_seconds
command_of env st (value_error why) request =
    block_fingerprint st request.fingerprint request.reason request.ttl_seconds
command_of env st raised request = end

-- The service has an anchor for the body, or a fingerprint to fall back on.
abbrev pub IsKillable : FullAnchor → KillRequest → Type 0
IsKillable (anchored anchor hash) request = Unit
IsKillable (value_error why) request = is_bad_fingerprint request.fingerprint ≡ false
IsKillable raised request = false ≡ true

module _ (v : Lists) (c : Codec) (ttl : ℕ) (laws : ListLaws v) (keys : KeyMap) (key : Option String)
    (st : Stamp) where
  open laws use {queue}

  -- Accepted, with one command more in the host's outbox and no other outbox changed.
  abbrev pub IsDelivered : String → Fields → Answer Fields × v.Store → v.Store → Type 0
  IsDelivered host command (answer, s') s =
      (reply : Fields) × (answer ≡ accepted reply)
      × ((other : String)
          → queue (queue_key other) s' ≡ (
              if str_eq host other
              then queue (queue_key other) s ++ c.dumps (obj command) ∷ []
              else queue (queue_key other) s))

module _ (env : Environment) where
  module _ (v : Lists) (c : Codec) (ttl : ℕ) (laws : ListLaws v) (keys : KeyMap) (st : Stamp) where
    -- One call, to the URL of a control route, which carries it out.
    abbrev pub IsCarriedOut : List Effect → String → Fields → v.Store → Type 0
    IsCarriedOut effects host command s =
        (key : Option String) × (payload : Payload) × (posts effects
          ≡ (
            str_append (env.rstrip_slash env.ingestion_control_url) (path_of payload),
            key,
            payload,
          )
            ∷ [])
        × IsDelivered v c ttl laws keys key st host command (serve v c ttl keys key st payload s) s
