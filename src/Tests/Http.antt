-- ===== src/Tests/Http.antt =====
-- The routes of the ingestion service, for one client.
use inferspect.Prelude.{◌≡◌, refl, String, true, none, some, [], ◌∷◌, map}
use inferspect.Value.{Value, str, obj, end, field, lookup, get, contains, insert, set_default}
use inferspect.Sdk.Schema.{LogType, log_type_of, base_log, LogModel, application_log, LogEnvelope}
use inferspect.Ingestion.Validation.{parse}
use inferspect.Ingestion.Pii.{redact_nested, redact_fields, redact_field, redact_event, redact_dict}
use inferspect.Ingestion.Pipeline.{
  Verdict, IngestResponse, enrich, is_stitched, idem_key, prepare, publish_event, dedup_and_publish,
  ingest_event, ingest_events, ingest_batch,
}
use inferspect.Ingestion.Http.{accepted}
use inferspect.Ingestion.Http.Auth.{KeyMap, require_api_key, resolve, find_client}
use inferspect.Ingestion.Http.Logs.{ingest}
use inferspect.Ingestion.Http.Admission.{IsFrom, Admitted, ingest_admits}
use inferspect.Ingestion.Http.Control.{KillRequest}
use inferspect.Tests.Memory.{memory, empty_streams, memory_laws}
use inferspect.Tests.Ingest.{config}

abbrev keys : KeyMap
keys = ("k1", "acme") ∷ []

abbrev message : LogModel
message = application_log (record {
  base = base_log LogType.application "api";
  ts = 0;
  level = "INFO";
  logger = "";
  trace_id = none;
  span_id = none;
  message = "up";
  attributes = end;
})

abbrev envelope : LogEnvelope
envelope = record { service = "ingest"; sdk_version = "0.1.0"; events = message ∷ message ∷ [] }

abbrev dump : LogModel → Value
dump m = obj (field "log_type" (str "inference") (field "input_preview" (str "hi") end))

abbrev response : IngestResponse
response = record {
  accepted = 1;
  duplicates = 1;
  rejected = 0;
  events =
      record { request_id = some "u1"; status = Verdict.accepted; reason = none }
      ∷ record { request_id = some "u1"; status = Verdict.duplicate; reason = none }
      ∷ [];
}

abbrev stored : (memory true).Store
stored = (ingest (memory true) config dump keys (some "k1") "now" envelope (empty_streams true)).1

answered :
    ingest (memory true) config dump keys (some "k1") "now" envelope (empty_streams true)
    ≡ (accepted response, stored)
unfolding ingest require_api_key resolve find_client ingest_batch ingest_events ingest_event parse
    dedup_and_publish publish_event is_stitched idem_key prepare enrich redact_event get lookup
    insert set_default contains log_type_of redact_nested redact_fields redact_field redact_dict
answered = refl

ingest_admits_example :
    (client : String) × IsFrom keys (some "k1") client
    × Admitted
        (memory true)
        config
        (memory_laws true)
        client
        "ingest"
        "now"
        (map dump (message ∷ message ∷ []))
        response
        (empty_streams true)
        stored
ingest_admits_example =
    ingest_admits (memory true) config (memory_laws true) dump keys (some "k1") "now" envelope
      response (empty_streams true) stored answered

abbrev order : KillRequest
order = record {
  host_id = "h";
  fingerprint = "0123456789abcdef0123456789abcdef0123456789abcdef0123456789abcdef";
  reason = "abuse";
  ttl_seconds = 60;
}
