-- ===== src/Ingestion/Http/Logs.antt =====
-- apps/ingestion-service/ingestion_service/controllers/ingest_controller.py: POST /v1/logs.
use inferspect.Prelude.{
  ℕ, String, Option, none, some, List, [], ◌∷◌, map, length, ltb, if◌then◌else◌,
}
use inferspect.Value.{Value}
use inferspect.Valkey.Streams.{Streams}
use inferspect.Sdk.Schema.{LogModel, LogEnvelope}
use inferspect.Ingestion.Http.{Answer, accepted, http_error}
use inferspect.Ingestion.Http.Auth.{KeyMap, require_api_key}
use inferspect.Ingestion.Pipeline.{
  Config, IngestResponse, Progress, go_on, raised, Failure, ingest_batch,
}

-- `max_events_per_batch`
abbrev pub max_events : ℕ
max_events = 500

module _ (v : Streams) (c : Config) where
  -- `Retry-After` is set on a response that the exception replaces, so it is not part of the answer;
  -- the detail goes on with the text of the exception.
  abbrev pub answer_of : Progress × v.Store → Answer IngestResponse × v.Store
  answer_of (go_on t, s) = (accepted t, s)
  answer_of (raised Failure.publish_error, s) = (http_error 503 "broker unavailable", s)
  answer_of (raised Failure.store_error, s) = (http_error 500 "", s)
  answer_of (raised Failure.attribute_error, s) = (http_error 500 "", s)

  abbrev pub sized :
      String → String → String → List Value → v.Store → Answer IngestResponse × v.Store
  sized client service received_at [] s = (http_error 400 "empty events array", s)
  sized client service received_at (e ∷ es) s =
      if ltb max_events (length (e ∷ es))
      then (http_error 413 "batch too large (max 500 events)", s)
      else answer_of (
          ingest_batch v c
            (record { client = client; service = service; received_at = received_at }) (e ∷ es) s)

  abbrev pub for_client :
      Option String → String → String → List Value → v.Store → Answer IngestResponse × v.Store
  for_client none service received_at events s = (http_error 401 "invalid sdk key", s)
  for_client (some client) service received_at events s = sized client service received_at events s

  -- `dump` is `e.model_dump(mode="json")`.
  unfoldable pub ingest :
      (LogModel → Value)
      → KeyMap
      → Option String
      → String
      → LogEnvelope
      → v.Store
      → Answer IngestResponse × v.Store
  ingest dump keys key received_at envelope s =
      for_client (require_api_key keys key) envelope.service received_at (map dump envelope.events)
        s
