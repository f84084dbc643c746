-- ===== src/Ingestion/Http/Guards.antt =====
-- Which calls of the control routes reach the outbox.
use inferspect.Prelude.{
  ℕ, ◌≡◌, ◌≢◌, ◌⊎◌, ◌∙◌, refl, inl, inr, String, true, false, not, Option, none, some, [], ◌∷◌,
  ◌++◌, arith, str_eq, eq_iff, eq_refl, str_len, ◌==◌, Bool-cases, Option-cases, ap, if◌then◌else◌,
}
use inferspect.Value.{Fields, obj, str, insert}
use inferspect.Value.Codec.{Codec}
use inferspect.Valkey.Lists.{Lists, ListLaws}
use inferspect.Ingestion.Control.Queue.{queue_key, heartbeat_key, touch_heartbeat, get_heartbeat}
use inferspect.Ingestion.Control.Service.{
  Stamp, block_fingerprint, is_bad_fingerprint, submit_command, kill_fingerprint,
}
use inferspect.Ingestion.Control.Delivery.{RoundTrips, enqueue_appends}
use inferspect.Ingestion.Control.Commands.{bad_length}
use inferspect.Ingestion.Http.{accepted, http_error}
use inferspect.Ingestion.Http.Auth.{KeyMap, require_api_key}
use inferspect.Ingestion.Http.Control.{
  KillRequest, HeartbeatRequest, is_sha256_text, metadata_of, kill, heartbeat,
}

module _ (v : Lists) (c : Codec) (ttl : ℕ) (laws : ListLaws v) where
  open laws use {queue, set_get, expire_get}

  -- POST /kill answers 401 or 422 and changes nothing, or it answers 202 for a known client and a
  -- fingerprint of 64 characters and puts the block command at the end of the host's outbox alone; it
  -- never answers 400.
  pub kill_answers :
      (keys : KeyMap) (key : Option String) (st : Stamp) (body : KillRequest) (s : v.Store)
      → let (answer, s') = kill v c ttl keys key st body s in
        ((require_api_key keys key ≡ none) × (answer ≡ http_error 401 "invalid sdk key") × (s' ≡ s))
        ⊎ (((is_sha256_text body.fingerprint ≡ false) × (answer ≡ http_error 422 "") × (s' ≡ s))
            ⊎ ((client : String) × (reply : Fields) × (require_api_key keys key ≡ some client)
                × (is_sha256_text body.fingerprint ≡ true)
                × (answer ≡ accepted reply)
                × ((other : String)
                    → queue (queue_key other) s' ≡ (
                        if str_eq body.host_id other
                        then queue (queue_key other) s
                          ++ c.dumps (
                              obj (
                                block_fingerprint st body.fingerprint body.reason body.ttl_seconds))
                            ∷ []
                        else queue (queue_key other) s))))
  unfolding kill kill_fingerprint submit_command
  kill_answers keys key st body s = elim (Option-cases (require_api_key keys key)) [
    | inl unknown ↦ rw unknown (inl (refl, refl, refl))
    | inr (client, known) ↦ elim (Bool-cases (str_len body.fingerprint == 64)) [
      | inr short ↦ rw (known, short) (inr (inl (refl, refl, refl)))
      | inl long ↦
          let fine : is_bad_fingerprint body.fingerprint ≡ false =
            bad_length body.fingerprint ∙ ap not long in
          let command = block_fingerprint st body.fingerprint body.reason body.ttl_seconds in
          rw (known, fine, long)
            (inr (
              inr (
                client,
                _,
                refl,
                refl,
                refl,
                λ other. (enqueue_appends v c ttl laws body.host_id other command s).0,
              )))
    ]
  ]

  -- The heartbeat that a known client reports for a host is what the host's record holds next: the
  -- reported metadata with the time of the report, if its text is not empty and loads back.
  pub heartbeat_round_trip :
      (keys : KeyMap) (key : Option String) (client : String) (body : HeartbeatRequest)
      (now : String) (s : v.Store)
      → require_api_key keys key ≡ some client
      → let blob = insert "last_seen" (str now) (metadata_of body) in
        RoundTrips c blob
        → c.dumps (obj blob) ≢ ""
        → get_heartbeat v c ttl body.host_id (heartbeat v c ttl keys key body now s).1
          ≡ some (obj blob)
  unfolding heartbeat get_heartbeat touch_heartbeat
  heartbeat_round_trip keys key client body now s known back full =
      let key = heartbeat_key body.host_id in
      let text = c.dumps (obj (insert "last_seen" (str now) (metadata_of body))) in
      ground (
        arith,
        known,
        back,
        full,
        expire_get key key ttl (v.set_text key text s),
        set_get key key text s,
        eq_refl key,
        eq_iff text "",
      )
