-- ===== src/Insights/Kills/Audit.antt =====
-- What a kill leaves behind: what was posted and what was recorded.
use inferspect.Prelude.{
  ℕ, ◌≡◌, ◌⊎◌, refl, inl, inr, String, Bool, true, false, Option, none, some, List, [], ◌∷◌,
  Bool-cases, Option-cases,
}
use inferspect.Value.{Value}
use inferspect.Ingestion.Control.Service.{is_bad_fingerprint}
use inferspect.Ingestion.Http.Control.{KillRequest}
use inferspect.Insights.Anchor.{Python}
use inferspect.Insights.Anchor.Body.{
  Json, FullAnchor, anchored, value_error, raised, build_full_anchor,
}
use inferspect.Insights.Kills.{
  Payload, kill_payload, anchor_payload, unblock_payload, Enforcement, Effect, posted, recorded,
  warned, Outcome, answered, bad_value, failed, json_body, http_failure, not_json, PostReply,
  Environment, SessionRow, session_texts, send, audit, after_post, event_of, anchor_request,
  kill_fingerprint, enforce, kill_session,
}

-- The POSTs, with the URL and the key of each.
abbrev pub posts : List Effect → List (String × Option String × Payload)
posts [] = []
posts (posted url key payload ∷ es) = (url, key, payload) ∷ posts es
posts (recorded event ∷ es) = posts es
posts (warned ∷ es) = posts es

-- The audit rows whose insertion is tried.
abbrev pub events : List Effect → List Enforcement
events [] = []
events (posted url key payload ∷ es) = events es
events (recorded event ∷ es) = event ∷ events es
events (warned ∷ es) = events es

abbrev pub host_of : Payload → String
host_of (kill_payload request operator) = request.host_id
host_of (anchor_payload request operator) = request.host_id
host_of (unblock_payload request) = request.host_id

abbrev pub is_answered : Outcome → Bool
is_answered (answered body) = true
is_answered bad_value = false
is_answered failed = false

abbrev pub is_json : PostReply → Bool
is_json (json_body body) = true
is_json http_failure = false
is_json not_json = false

module _ (env : Environment) where
  -- Either one POST is made, which is answered with a JSON body, and the kill has that answer and the
  -- insertion of one audit row is tried; or the kill is not answered, no row is tried, and there was no
  -- POST or one that is not answered with a JSON body.
  abbrev pub IsAudited : String → Outcome × List Effect → Type 0
  IsAudited operator (outcome, effects) =
      ((url : String) × (key : Option String) × (payload : Payload) × (body : Value)
        × (event : Enforcement) × (posts effects ≡ (url, key, payload) ∷ [])
        × (env.post url key payload ≡ json_body body)
        × (outcome ≡ answered body)
        × (events effects ≡ event ∷ [])
        × (event.host_id ≡ host_of payload)
        × (event.operator_id ≡ operator))
      ⊎ ((is_answered outcome ≡ false)
          × (events effects ≡ [])
          × ((posts effects ≡ [])
              ⊎ ((url : String) × (key : Option String) × (payload : Payload) × (posts effects
                    ≡ (url, key, payload) ∷ [])
                  × (is_json (env.post url key payload) ≡ false))))

  pub audit_records :
      (event : Enforcement)
      → (posts (audit env event) ≡ []) × (events (audit env event) ≡ event ∷ [])
  audit_records event = elim (Bool-cases (env.insert_event event)) [
    | inl e ↦ rw e (refl, refl)
    | inr e ↦ rw e (refl, refl)
  ]

  after_post-IsAudited :
      (reply : PostReply) (url : String) (key : Option String) (payload : Payload)
      (event : Enforcement)
      → env.post url key payload ≡ reply
      → event.host_id ≡ host_of payload
      → IsAudited event.operator_id
          (after_post env reply (posted url key payload) (audit env event))
  after_post-IsAudited (json_body body) url key payload event made same =
      let (p, e) = audit_records event in
      inl (url, key, payload, body, event, rw p refl, made, refl, e, same, refl)
  after_post-IsAudited http_failure url key payload event made same =
      inr (refl, refl, inr (url, key, payload, refl, rw made refl))
  after_post-IsAudited not_json url key payload event made same =
      inr (refl, refl, inr (url, key, payload, refl, rw made refl))

  kill_fingerprint-IsAudited :
      (request : KillRequest) (operator : String) (client : Option String)
      → IsAudited operator (kill_fingerprint env request operator client)
  unfolding kill_fingerprint
  kill_fingerprint-IsAudited request operator client =
      elim (Bool-cases (is_bad_fingerprint request.fingerprint)) [
        | inl bad ↦ rw bad (inr (refl, refl, inl refl))
        | inr fine ↦
            let payload = kill_payload request operator in
            rw fine (
              after_post-IsAudited (send env "/kill" payload) _ _ payload
                (event_of env "block_fingerprint" request operator client) refl refl)
      ]

  enforce-IsAudited :
      (anchor : FullAnchor) (request : KillRequest) (operator : String) (client : Option String)
      → IsAudited operator (enforce env anchor request operator client)
  unfolding enforce
  enforce-IsAudited (anchored anchor hash) request operator client =
      let payload = anchor_payload (anchor_request env anchor hash request) operator in
      after_post-IsAudited (send env "/kill-anchor" payload) _ _ payload
        (event_of env "block_anchor" request operator client) refl refl
  enforce-IsAudited (value_error why) request operator client =
      kill_fingerprint-IsAudited request operator client
  enforce-IsAudited raised request operator client = inr (refl, refl, inl refl)

  -- Killing a session posts at most one command. If the post is answered with a JSON body the kill is
  -- answered with that body, whether or not the audit row can be inserted, and the insertion of one audit
  -- row is tried, for the host of the command and the operator; otherwise the kill is not answered and no
  -- insertion is tried.
  pub kill_session-IsAudited :
      (py : Python) (json : Json) (row : Option SessionRow) (operator : String)
      (client : Option String) (reason : String) (ttl : ℕ)
      → IsAudited operator (kill_session env py json row operator client reason ttl)
  unfolding kill_session
  kill_session-IsAudited py json none operator client reason ttl = inr (refl, refl, inl refl)
  kill_session-IsAudited py json (some row) operator client reason ttl =
      elim (Option-cases (session_texts env row)) [
        | inl e ↦ rw (kill_session, e) (inr (refl, refl, inl refl))
        | inr ((host, fingerprint, preview), e) ↦
            rw (kill_session, e)
              (enforce-IsAudited (build_full_anchor py json preview) _ operator client)
      ]
