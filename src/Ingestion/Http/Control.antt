-- ===== src/Ingestion/Http/Control.antt =====
-- apps/ingestion-service/ingestion_service/controllers/control_controller.py: the control routes. A
-- body or a query that pydantic refuses is answered 422, after the key is resolved.
use inferspect.Prelude.{ℕ, String, Bool, true, false, ◌&&◌, Option, none, some, str_len, leb, ◌==◌}
use inferspect.Value.{Value, Fields, null, bool, str, end, field, update}
use inferspect.Value.Codec.{Codec}
use inferspect.Valkey.Lists.{Lists}
use inferspect.Ingestion.Control.Queue.{touch_heartbeat}
use inferspect.Ingestion.Control.Service.{
  Stamp, BadRequest, Reply, refused, queued, bad_fingerprint, anchor_required, hash_required,
  kill_fingerprint, unblock_fingerprint, kill_anchor, poll_commands,
}
use inferspect.Ingestion.Http.{Answer, accepted, http_error}
use inferspect.Ingestion.Http.Auth.{KeyMap, require_api_key}

pub record KillRequest : Type 0 where
  pub host_id : String
  pub fingerprint : String
  pub reason : String
  pub ttl_seconds : ℕ

pub record KillAnchorRequest : Type 0 where
  pub host_id : String
  pub anchor_b64 : String
  pub expected_hash_b64 : String
  pub reason : String
  pub ttl_seconds : ℕ

pub record UnblockRequest : Type 0 where
  pub host_id : String
  pub fingerprint : String

pub record HeartbeatRequest : Type 0 where
  pub host_id : String
  pub agent_version : Option String
  pub kernel : Option String
  pub btf : Option Bool
  pub libssl_path : Option String
  pub extra : Fields

abbrev pub text_or_none : Option String → Value
text_or_none none = null
text_or_none (some s) = str s

abbrev pub bool_or_none : Option Bool → Value
bool_or_none none = null
bool_or_none (some b) = bool b

-- The metadata of a heartbeat; `extra` comes last and wins.
unfoldable pub metadata_of : HeartbeatRequest → Fields
metadata_of body = update body.extra (
    field "agent_version" (text_or_none body.agent_version) (
      field "kernel" (text_or_none body.kernel) (
        field "btf" (bool_or_none body.btf)
          (field "libssl_path" (text_or_none body.libssl_path) end))))

-- `Field(min_length=64, max_length=64)`
abbrev pub is_sha256_text : String → Bool
is_sha256_text f = str_len f == 64

abbrev pub detail_of : BadRequest → String
detail_of bad_fingerprint = "fingerprint must be a 64-char hex SHA256"
detail_of anchor_required = "anchor_b64 is required"
detail_of hash_required = "expected_hash_b64 is required"

module _ (v : Lists) (c : Codec) (queue_ttl : ℕ) where
  -- `except ValueError`: 400.
  abbrev pub answer_reply : Reply × v.Store → Answer Fields × v.Store
  answer_reply (refused why, s) = (http_error 400 (detail_of why), s)
  answer_reply (queued body, s) = (accepted body, s)

  -- A route behind a key whose input pydantic has checked.
  abbrev pub guarded {ℓ} :
      {A : Type ℓ}
      → Option String
      → Bool
      → (v.Store → Answer A × v.Store)
      → v.Store
      → Answer A × v.Store
  guarded none valid route s = (http_error 401 "invalid sdk key", s)
  guarded (some client) false route s = (http_error 422 "", s)
  guarded (some client) true route s = route s

  unfoldable pub kill :
      KeyMap → Option String → Stamp → KillRequest → v.Store → Answer Fields × v.Store
  kill keys key st body s =
      guarded (require_api_key keys key) (is_sha256_text body.fingerprint)
        (λ s'. answer_reply (
          kill_fingerprint v c queue_ttl st body.host_id body.fingerprint body.reason
            body.ttl_seconds s'))
        s

  unfoldable pub kill_by_content :
      KeyMap → Option String → Stamp → KillAnchorRequest → v.Store → Answer Fields × v.Store
  kill_by_content keys key st body s =
      guarded (require_api_key keys key) true
        (λ s'. answer_reply (
          kill_anchor v c queue_ttl st body.host_id body.anchor_b64 body.expected_hash_b64
            body.reason body.ttl_seconds s'))
        s

  unfoldable pub unblock :
      KeyMap → Option String → Stamp → UnblockRequest → v.Store → Answer Fields × v.Store
  unblock keys key st body s =
      guarded (require_api_key keys key) (is_sha256_text body.fingerprint)
        (λ s'. answer_reply (unblock_fingerprint v c queue_ttl st body.host_id body.fingerprint s'))
        s

  abbrev passed : Fields × v.Store → Answer Fields × v.Store
  passed (body, s) = (accepted body, s)

  -- GET /poll, which answers 200.
  unfoldable pub poll :
      KeyMap → Option String → String → ℕ → String → v.Store → Answer Fields × v.Store
  poll keys key host_id timeout now s =
      guarded (require_api_key keys key)
        (leb 1 (str_len host_id) && leb (str_len host_id) 128 && leb 1 timeout && leb timeout 300)
        (λ s'. passed (poll_commands v c queue_ttl host_id timeout now s')) s

  unfoldable pub heartbeat :
      KeyMap → Option String → HeartbeatRequest → String → v.Store → Answer Fields × v.Store
  heartbeat keys key body now s =
      guarded (require_api_key keys key) true
        (λ s'. (
          accepted (field "status" (str "ok") end),
          touch_heartbeat v c queue_ttl body.host_id (metadata_of body) now s',
        ))
        s
