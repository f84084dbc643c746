-- ===== src/Insights/Kills.antt =====
-- apps/insights-api/insights_api/services/agents_service.py: the operator's kills, which are sent to
-- the ingestion service and recorded for audit.
pub mod Audit
pub mod Reach
pub mod Unobserved
use inferspect.Prelude.{
  ℕ, String, Bool, true, false, Option, none, some, List, [], ◌∷◌, str_eq, str_append,
  if◌then◌else◌,
}
use inferspect.Value.{Value}
use inferspect.Ingestion.Control.Service.{is_bad_fingerprint}
use inferspect.Ingestion.Http.Control.{KillRequest, KillAnchorRequest, UnblockRequest}
use inferspect.Insights.Anchor.{Python}
use inferspect.Insights.Anchor.Body.{
  Json, FullAnchor, anchored, value_error, raised, build_full_anchor,
}

-- The body of a POST; a kill also names its operator.
pub data Payload : Type 0 where
  kill_payload : KillRequest → String → Payload
  anchor_payload : KillAnchorRequest → String → Payload
  unblock_payload : UnblockRequest → Payload

-- A row of `enforcement_events`.
pub record Enforcement : Type 0 where
  pub host_id : String
  pub fingerprint : String
  pub command : String
  pub reason : String
  pub source : String
  pub client_name : String
  pub operator_id : String

-- What a call does outside the service, in order; the key is the header `X-Sdk-Key`.
pub data Effect : Type 0 where
  posted : (url : String) (key : Option String) (payload : Payload) → Effect
  recorded : Enforcement → Effect
  warned : Effect

pub data Outcome : Type 0 where
  answered : Value → Outcome
  bad_value : Outcome
  failed : Outcome

-- The reply to a POST: its JSON, an error of the connection or of the status, or a text that is not
-- JSON, whose error is a `ValueError`.
pub data PostReply : Type 0 where
  json_body : Value → PostReply
  http_failure : PostReply
  not_json : PostReply

-- Settings, the HTTP client, the insertion of an audit row (false when it raises), and the standard
-- library's `str.rstrip("/")`, `base64.b64encode` and `bytes.decode`, which may raise a `ValueError`.
pub record Environment : Type 0 where
  pub ingestion_control_url : String
  pub sdk_api_key : Option String
  pub post : String → Option String → Payload → PostReply
  pub insert_event : Enforcement → Bool
  pub rstrip_slash : String → String
  pub b64 : List ℕ → String
  pub decode : List ℕ → Option String

abbrev pub key_or_none : Option String → Option String
key_or_none none = none
key_or_none (some k) = if str_eq k "" then none else some k

abbrev pub text_of_client : Option String → String
text_of_client none = ""
text_of_client (some c) = c

-- A column of text: `None`, a text or bytes.
pub data Column : Type 0 where
  missing : Column
  text : String → Column
  bytes : List ℕ → Column

pub record SessionRow : Type 0 where
  pub host_id : Column
  pub fingerprint : Column
  pub input_preview : Column

module _ (env : Environment) where
  abbrev pub url_of : String → String
  url_of path = str_append (env.rstrip_slash env.ingestion_control_url) path

  abbrev pub post_of : String → Payload → Effect
  post_of path payload = posted (url_of path) (key_or_none env.sdk_api_key) payload

  abbrev pub send : String → Payload → PostReply
  send path payload = env.post (url_of path) (key_or_none env.sdk_api_key) payload

  -- The insertion after a kill, whose failure is only logged.
  abbrev pub audit : Enforcement → List Effect
  audit event = recorded event ∷ (if env.insert_event event then [] else warned ∷ [])

  abbrev pub after_post : PostReply → Effect → List Effect → Outcome × List Effect
  after_post (json_body body) effect rest = (answered body, effect ∷ rest)
  after_post http_failure effect rest = (failed, effect ∷ [])
  after_post not_json effect rest = (bad_value, effect ∷ [])

  abbrev pub event_of : String → KillRequest → String → Option String → Enforcement
  event_of command request operator_id client = record {
    host_id = request.host_id;
    fingerprint = request.fingerprint;
    command = command;
    reason = request.reason;
    source = "operator";
    client_name = text_of_client client;
    operator_id = operator_id;
  }

  -- `kill_fingerprint`, whose arguments are the request's fields.
  unfoldable pub kill_fingerprint : KillRequest → String → Option String → Outcome × List Effect
  kill_fingerprint request operator_id client =
      let payload = kill_payload request operator_id in
      if is_bad_fingerprint request.fingerprint
      then (bad_value, [])
      else after_post (send "/kill" payload) (post_of "/kill" payload)
          (audit (event_of "block_fingerprint" request operator_id client))

  unfoldable pub unblock_fingerprint : UnblockRequest → Outcome × List Effect
  unblock_fingerprint request =
      let payload = unblock_payload request in
      if is_bad_fingerprint request.fingerprint
      then (bad_value, [])
      else after_post (send "/unblock" payload) (post_of "/unblock" payload) []

  abbrev coerced : String → Column → Option String
  coerced absent missing = some absent
  coerced absent (text s) = some s
  coerced absent (bytes b) = env.decode b

  -- The fields as texts; `none` is a `UnicodeDecodeError`.
  abbrev pub session_texts : SessionRow → Option (String × String × String)
  session_texts row = elim (coerced "None" row.host_id) [
    | none ↦ none
    | some host ↦ elim (coerced "" row.fingerprint) [
      | none ↦ none
      | some fingerprint ↦ elim (coerced "" row.input_preview) [
        | none ↦ none
        | some preview ↦ some (host, fingerprint, preview)
      ]
    ]
  ]

  abbrev pub anchor_request : List ℕ → List ℕ → KillRequest → KillAnchorRequest
  anchor_request anchor hash request = record {
    host_id = request.host_id;
    anchor_b64 = env.b64 anchor;
    expected_hash_b64 = env.b64 hash;
    reason = request.reason;
    ttl_seconds = request.ttl_seconds;
  }

  -- With the anchor of the conversation, or by its fingerprint when it has none.
  unfoldable pub enforce : FullAnchor → KillRequest → String → Option String → Outcome × List Effect
  enforce (anchored anchor hash) request operator_id client =
      let payload = anchor_payload (anchor_request anchor hash request) operator_id in
      after_post (send "/kill-anchor" payload) (post_of "/kill-anchor" payload)
        (audit (event_of "block_anchor" request operator_id client))
  enforce (value_error why) request operator_id client =
      let (outcome, effects) = kill_fingerprint request operator_id client in
      (outcome, warned ∷ effects)
  enforce raised request operator_id client = (failed, [])

  abbrev pub request_of : String → String → String → ℕ → KillRequest
  request_of host fingerprint reason ttl = record {
    host_id = host;
    fingerprint = fingerprint;
    reason = reason;
    ttl_seconds = ttl;
  }

  -- `kill_session`, on the row that `session_fingerprint` finds.
  unfoldable pub kill_session :
      Python
      → Json
      → Option SessionRow
      → String
      → Option String
      → String
      → ℕ
      → Outcome × List Effect
  kill_session py json none operator_id client reason ttl = (bad_value, [])
  kill_session py json (some row) operator_id client reason ttl = elim (session_texts row) [
    | none ↦ (bad_value, [])
    | some (host, fingerprint, preview) ↦
        enforce (build_full_anchor py json preview) (request_of host fingerprint reason ttl)
          operator_id client
  ]
