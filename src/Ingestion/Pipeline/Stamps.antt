-- ===== src/Ingestion/Pipeline/Stamps.antt =====
-- The fields that the server sets.
use inferspect.Prelude.{◌≡◌, refl, ◌∙◌, false, Option, none, some}
use inferspect.Value.{Fields, str, lookup, lookup-insert}
use inferspect.Sdk.Schema.{LogType}
use inferspect.Valkey.Streams.{Streams}
use inferspect.Ingestion.Validation.{Log}
use inferspect.Ingestion.Pii.{text_fields}
use inferspect.Ingestion.Pii.Event.{is_one_of, redact_event_keeps}
use inferspect.Ingestion.Pipeline.{Config, Request, enrich, prepare}

no_client : (t : Option LogType) → is_one_of "client" (text_fields t) ≡ false
no_client none = refl
no_client (some LogType.inference) = refl
no_client (some LogType.tool_execution) = refl
no_client (some LogType.application) = refl

no_service : (t : Option LogType) → is_one_of "ingest_service" (text_fields t) ≡ false
no_service none = refl
no_service (some LogType.inference) = refl
no_service (some LogType.tool_execution) = refl
no_service (some LogType.application) = refl

no_received : (t : Option LogType) → is_one_of "received_at" (text_fields t) ≡ false
no_received none = refl
no_received (some LogType.inference) = refl
no_received (some LogType.tool_execution) = refl
no_received (some LogType.application) = refl

client-enrich :
    (r : Request) (dump : Fields) → lookup "client" (enrich r dump) ≡ some (str r.client)
unfolding enrich
client-enrich r dump = rw lookup-insert

service-enrich :
    (r : Request) (dump : Fields) → lookup "ingest_service" (enrich r dump) ≡ some (str r.service)
unfolding enrich
service-enrich r dump = simp lookup-insert

received-enrich :
    (r : Request) (dump : Fields) → lookup "received_at" (enrich r dump) ≡ some (str r.received_at)
unfolding enrich
received-enrich r dump = simp lookup-insert

-- In every event that is published, the tenant, the service and the time of receipt are those that
-- the server resolved, whatever values the sender gave them and whatever redaction does.
pub prepare_stamps :
    (v : Streams) (c : Config) (r : Request) (log : Log)
    → (lookup "client" (prepare v c r log) ≡ some (str r.client))
      × (lookup "ingest_service" (prepare v c r log) ≡ some (str r.service))
      × (lookup "received_at" (prepare v c r log) ≡ some (str r.received_at))
unfolding prepare
prepare_stamps v c r log =
    let e = enrich r log.dump in
    (
      redact_event_keeps c.pii e "client" no_client refl ∙ client-enrich r log.dump,
      redact_event_keeps c.pii e "ingest_service" no_service refl ∙ service-enrich r log.dump,
      redact_event_keeps c.pii e "received_at" no_received refl ∙ received-enrich r log.dump,
    )
