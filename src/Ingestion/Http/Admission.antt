-- ===== src/Ingestion/Http/Admission.antt =====
-- What POST /v1/logs lets into the streams.
use inferspect.Prelude.{
  ℕ, ◌+◌, ◌≤◌, ◌<◌, ◌≡◌, ◌⊎◌, inl, inr, Bool-cases, str_eq, eq_iff, refl, String, Option, none,
  some, List, [], ◌∷◌, ◌++◌, map, length, arith, Bool, true, false, ltb, if◌then◌else◌,
}
use inferspect.Value.{Value}
use inferspect.Valkey.Streams.{Streams, StreamLaws}
use inferspect.Sdk.Schema.{LogModel, LogEnvelope}
use inferspect.Ingestion.Http.{accepted, http_error}
use inferspect.Ingestion.Http.Auth.{KeyMap, find_client, resolve, require_api_key}
use inferspect.Ingestion.Http.Logs.{max_events, answer_of, sized, for_client, ingest}
use inferspect.Ingestion.Pipeline.{
  Config, Request, IngestResponse, Progress, go_on, raised, Failure, ingest_batch,
}
use inferspect.Ingestion.Pipeline.Emits.{entries_of, emits, ingest_batch-emits}
use inferspect.Ingestion.Pipeline.Outcome.{ingest_batch_counts}

-- The key is listed for the client.
abbrev pub IsListed : String → String → KeyMap → Type 0
IsListed key client [] = false ≡ true
IsListed key client ((k, name) ∷ rest) = ((k ≡ key) × (name ≡ client)) ⊎ IsListed key client rest

-- The request comes from the client: its key is listed for it, or no keys are configured, where any
-- request, with or without a key, is one of the client "unknown".
abbrev pub IsFrom : KeyMap → Option String → String → Type 0
IsFrom keys key client =
    ((keys ≡ []) × (client ≡ "unknown")) ⊎ ((k : String) × (key ≡ some k) × IsListed k client keys)

find_client-IsListed :
    (key client : String) (keys : KeyMap)
    → find_client key keys ≡ some client
    → IsListed key client keys
unfolding find_client
find_client-IsListed key client [] h = cc
find_client-IsListed key client ((k, name) ∷ rest) h = elim (Bool-cases (str_eq k key)) [
  | inl same ↦ inl ((eq_iff k key).0 same, ground arith)
  | inr other ↦ inr (find_client-IsListed key client rest (ground arith))
]

require_api_key-IsFrom :
    (keys : KeyMap) (key : Option String) (client : String)
    → require_api_key keys key ≡ some client
    → IsFrom keys key client
unfolding require_api_key resolve
require_api_key-IsFrom [] key client h = inl (refl, ground arith)
require_api_key-IsFrom (k ∷ ks) none client h = cc
require_api_key-IsFrom (k ∷ ks) (some key) client h = elim (Bool-cases (str_eq key "")) [
  | inl void ↦ absurd (ground arith)
  | inr full ↦ inr (key, refl, find_client-IsListed key client (k ∷ ks) (ground arith))
]

module _ (v : Streams) (c : Config) (laws : StreamLaws v) where
  open laws use {seen, stream}

  -- What a 202 says of the batch and the store.
  pub record Admitted (client service received_at : String) (events : List Value)
      (t : IngestResponse) (s s' : v.Store) : Type 0 where
    pub few : t.accepted + t.duplicates + t.rejected ≤ max_events
    pub some_event : 0 < t.accepted + t.duplicates + t.rejected
    pub grown :
        (j : String)
        → stream j s'
          ≡ stream j s
            ++ entries_of j (
                emits v c
                  (record { client = client; service = service; received_at = received_at })
                  (λ k. seen k s)
                  events)

  answer-accepted :
      (p : Progress × v.Store) (t : IngestResponse) (s' : v.Store)
      → answer_of v c p ≡ (accepted t, s')
      → p ≡ (go_on t, s')
  answer-accepted (go_on u, s) t s' h = cc
  answer-accepted (raised Failure.publish_error, s) t s' h = cc
  answer-accepted (raised Failure.store_error, s) t s' h = cc
  answer-accepted (raised Failure.attribute_error, s) t s' h = cc

  run-Admitted :
      (client service received_at : String) (events : List Value) (t : IngestResponse)
      (s s' : v.Store)
      → length events ≤ max_events
      → 0 < length events
      → ingest_batch v c
          (record { client = client; service = service; received_at = received_at })
          events
          s
        ≡ (go_on t, s')
      → Admitted client service received_at events t s s'
  run-Admitted client service received_at events t s s' few some_event h =
      let r : Request = record { client = client; service = service; received_at = received_at } in
      let (one_each, a, d, j, total) = ingest_batch_counts v c r events t s s' h in
      record {
        few = omega (arith, few, total);
        some_event = omega (arith, some_event, total);
        grown = ingest_batch-emits v c r laws events t s s' h;
      }

  sized-Admitted :
      (client service received_at : String) (events : List Value) (t : IngestResponse)
      (s s' : v.Store)
      → sized v c client service received_at events s ≡ (accepted t, s')
      → Admitted client service received_at events t s s'
  sized-Admitted client service received_at [] t s s' h = cc
  sized-Admitted client service received_at (e ∷ es) t s s' h =
      by_size (ltb max_events (length (e ∷ es))) refl h
    where
      by_size :
          (big : Bool)
          → ltb max_events (length (e ∷ es)) ≡ big
          → (if big
              then (http_error 413 "batch too large (max 500 events)", s)
              else answer_of v c (
                  ingest_batch v c
                    (record { client = client; service = service; received_at = received_at })
                    (e ∷ es)
                    s))
            ≡ (accepted t, s')
          → Admitted client service received_at (e ∷ es) t s s'
      by_size true size h' = cc
      by_size false size h' =
          run-Admitted client service received_at (e ∷ es) t s s' (ground arith) (omega arith)
            (answer-accepted _ t s' h')

  for_client-Admitted :
      (found : Option String) (service received_at : String) (events : List Value)
      (t : IngestResponse) (s s' : v.Store)
      → for_client v c found service received_at events s ≡ (accepted t, s')
      → (client : String) × (found ≡ some client)
        × Admitted client service received_at events t s s'
  for_client-Admitted none service received_at events t s s' h = cc
  for_client-Admitted (some client) service received_at events t s s' h =
      (client, refl, sized-Admitted client service received_at events t s s' h)

  -- A batch is answered 202 only if its key is listed for a client, or no keys are configured and the
  -- client is "unknown", and only for at least one and at most 500 events. Then each stream has grown by
  -- exactly what the description names for those events under that client.
  pub ingest_admits :
      (dump : LogModel → Value) (keys : KeyMap) (key : Option String) (received_at : String)
      (envelope : LogEnvelope) (t : IngestResponse) (s s' : v.Store)
      → ingest v c dump keys key received_at envelope s ≡ (accepted t, s')
      → (client : String) × IsFrom keys key client
        × Admitted client envelope.service received_at (map dump envelope.events) t s s'
  unfolding ingest
  ingest_admits dump keys key received_at envelope t s s' h =
      let (client, found, admitted) =
        for_client-Admitted (require_api_key keys key) envelope.service received_at
          (map dump envelope.events) t s s' h in
      (client, require_api_key-IsFrom keys key client found, admitted)

module _ (v : Streams) (c : Config) where
  by_answer :
      (p : Progress × v.Store) (code : ℕ) (detail : String) (s' : v.Store)
      → answer_of v c p ≡ (http_error code detail, s')
      → 500 ≤ code
  by_answer (go_on u, s) code detail s' h = cc
  by_answer (raised Failure.publish_error, s) code detail s' h = ground arith
  by_answer (raised Failure.store_error, s) code detail s' h = ground arith
  by_answer (raised Failure.attribute_error, s) code detail s' h = ground arith

  sized_refused :
      (client service received_at : String) (events : List Value) (code : ℕ) (detail : String)
      (s s' : v.Store)
      → code < 500
      → sized v c client service received_at events s ≡ (http_error code detail, s')
      → s' ≡ s
  sized_refused client service received_at [] code detail s s' low h = cc
  sized_refused client service received_at (e ∷ es) code detail s s' low h =
      by_size (ltb max_events (length (e ∷ es))) h
    where
      by_size :
          (big : Bool)
          → (if big
              then (http_error 413 "batch too large (max 500 events)", s)
              else answer_of v c (
                  ingest_batch v c
                    (record { client = client; service = service; received_at = received_at })
                    (e ∷ es)
                    s))
            ≡ (http_error code detail, s')
          → s' ≡ s
      by_size true h' = cc
      by_size false h' = absurd (omega (arith, low, by_answer _ code detail s' h'))

  for_client_refused :
      (found : Option String) (service received_at : String) (events : List Value) (code : ℕ)
      (detail : String) (s s' : v.Store)
      → code < 500
      → for_client v c found service received_at events s ≡ (http_error code detail, s')
      → s' ≡ s
  for_client_refused none service received_at events code detail s s' low h = cc
  for_client_refused (some client) service received_at events code detail s s' low h =
      sized_refused client service received_at events code detail s s' low h

  -- A batch that is refused with a status below 500 has not touched the store.
  pub ingest_refuses :
      (dump : LogModel → Value) (keys : KeyMap) (key : Option String) (received_at : String)
      (envelope : LogEnvelope) (code : ℕ) (detail : String) (s s' : v.Store)
      → code < 500
      → ingest v c dump keys key received_at envelope s ≡ (http_error code detail, s')
      → s' ≡ s
  unfolding ingest
  ingest_refuses dump keys key received_at envelope code detail s s' low h =
      for_client_refused (require_api_key keys key) envelope.service received_at
        (map dump envelope.events) code detail s s' low h
