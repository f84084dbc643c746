-- ===== src/Tests/Ingest.antt =====
-- The ingestion pipeline over a store in memory, with a PII service that knows one address.
use inferspect.Prelude.{
  ◌≡◌, ◌≢◌, ◌+◌, ◌++◌, refl, some, none, true, false, ◌||◌, not, List, [], ◌∷◌, length, String,
  str_eq, if◌then◌else◌,
}
use inferspect.Value.{
  Value, Fields, str, obj, end, field, lookup, get, contains, insert, set_default,
}
use inferspect.Sdk.Schema.{LogType, log_type_of}
use inferspect.Ingestion.Validation.{Log, valid, not_an_object, Parsed, parse}
use inferspect.Ingestion.Pii.{
  PiiService, redact_nested, redact_fields, redact_field, redact_event, redact_dict,
}
use inferspect.Ingestion.Pii.Event.{expected, redact_event_fields}
use inferspect.Ingestion.Pipeline.{
  Config, Request, Verdict, IngestResponse, go_on, raised, Failure, empty_response, add_duplicate,
  enrich, is_stitched, idem_key, prepare, publish_event, dedup_and_publish, ingest_event,
  ingest_events, ingest_batch,
}
use inferspect.Ingestion.Pipeline.Ends.{Answered, all_ingestible, ingest_batch_ends}
use inferspect.Ingestion.Pipeline.Emits.{entries_of, emits, ingest_batch-emits}
use inferspect.Ingestion.Pipeline.Failures.{
  retry_after_failure_is_lost, application_event_fails_batch,
}
use inferspect.Ingestion.Pipeline.Outcome.{ingest_batch_counts}
use inferspect.Tests.Memory.{memory, empty_streams, memory_laws, two_texts}

abbrev pii : PiiService
pii = record {
  enabled = true;
  ready = true;
  analyze = λ s. some (if str_eq s "me@x.org" then "EMAIL" ∷ [] else []);
  anonymize = λ s found. some "<EMAIL>";
}

abbrev event : Fields
event = field "log_type" (str "inference") (
    field "input_preview" (str "me@x.org")
      (field "metadata" (obj (field "user" (obj (field "mail" (str "me@x.org") end)) end)) end))

abbrev app_event : Fields
app_event = field "log_type" (str "application") (field "message" (str "up") end)

abbrev pub config : Config
config = record {
  validate = λ t fs. valid "u1" fs;
  pii = pii;
  codec = two_texts event end;
  stream_inference = "logs:inference";
  stream_tool_execution = "logs:tool";
  stream_application = "logs:app";
}

abbrev request : Request
request = record { client = "acme"; service = "ingest"; received_at = "2026-01-01T00:00:00Z" }

abbrev log : Log
log = record { log_type = LogType.inference; uuid = "u1"; dump = event }

abbrev app_log : Log
app_log = record { log_type = LogType.application; uuid = "u1"; dump = app_event }

-- The same event twice, and one that is no object.
abbrev batch : List Value
batch = obj event ∷ obj event ∷ str "x" ∷ []

abbrev response : IngestResponse
response = record {
  accepted = 1;
  duplicates = 1;
  rejected = 1;
  events =
      record { request_id = some "u1"; status = Verdict.accepted; reason = none }
      ∷ record { request_id = some "u1"; status = Verdict.duplicate; reason = none }
      ∷ record { request_id = none; status = Verdict.rejected; reason = some not_an_object }
      ∷ [];
}

abbrev stored : (memory true).Store
stored = (ingest_batch (memory true) config request batch (empty_streams true)).1

batch_runs :
    ingest_batch (memory true) config request batch (empty_streams true) ≡ (go_on response, stored)
unfolding ingest_batch ingest_events ingest_event parse dedup_and_publish publish_event is_stitched
    idem_key prepare enrich redact_event get lookup insert set_default contains log_type_of
    redact_nested redact_fields redact_field redact_dict
batch_runs = refl

ingest_batch_counts_example :
    (length response.events ≡ 3)
    × (response.accepted ≡ 1)
    × (response.duplicates ≡ 1)
    × (response.rejected ≡ 1)
    × (1 + 1 + 1 ≡ 3)
ingest_batch_counts_example =
    ingest_batch_counts (memory true) config request batch response (empty_streams true) stored
      batch_runs

ingest_batch-emits_example :
    stored.1 "logs:inference"
    ≡ [] ++ entries_of "logs:inference" (emits (memory true) config request (λ k. false) batch)
ingest_batch-emits_example =
    ingest_batch-emits (memory true) config request (memory_laws true) batch response
      (empty_streams true) stored batch_runs "logs:inference"

parsed_event : parse config.validate (obj event) ≡ Parsed.parsed log
unfolding parse get lookup log_type_of
parsed_event = refl

fresh_event : is_stitched (prepare (memory false) config request log) ≡ false
unfolding ingest_batch ingest_events ingest_event parse dedup_and_publish publish_event is_stitched
    idem_key prepare enrich redact_event get lookup insert set_default contains log_type_of
    redact_nested redact_fields redact_field redact_dict
fresh_event = refl

-- The store after the event was marked and its publish raised.
abbrev marked : (memory false).Store
marked = (λ j. str_eq "idem:u1" j || false, λ j. [])

publish_fails :
    ingest_event (memory false) config request (obj event) empty_response (empty_streams false)
    ≡ (raised Failure.publish_error, marked)
unfolding ingest_batch ingest_events ingest_event parse dedup_and_publish publish_event is_stitched
    idem_key prepare enrich redact_event get lookup insert set_default contains log_type_of
    redact_nested redact_fields redact_field redact_dict
publish_fails = refl

abbrev retried : (memory false).Store
retried = (λ j. str_eq "idem:u1" j || (str_eq "idem:u1" j || false), λ j. [])

retry_claims : (memory false).set_nx (idem_key "u1") marked ≡ some (false, retried)
unfolding idem_key
retry_claims = refl

retry_after_failure_is_lost_example :
    (ingest_event (memory false) config request (obj event) empty_response marked
      ≡ (go_on (add_duplicate "u1" empty_response), retried))
    × ((j : String) → retried.1 j ≡ marked.1 j)
retry_after_failure_is_lost_example =
    retry_after_failure_is_lost (memory false) config request (memory_laws false) (obj event) log
      empty_response empty_response (empty_streams false) marked marked retried false parsed_event
      fresh_event publish_fails (λ k h. h) retry_claims

parsed_app_event : parse config.validate (obj app_event) ≡ Parsed.parsed app_log
unfolding parse get lookup log_type_of
parsed_app_event = refl

application_event_fails_batch_example :
    ingest_batch (memory true) config request (obj event ∷ obj app_event ∷ []) (empty_streams true)
    ≢ (go_on empty_response, empty_streams true)
application_event_fails_batch_example =
    application_event_fails_batch (memory true) config request (obj event ∷ []) [] (obj app_event)
      app_log empty_response (empty_streams true) (empty_streams true) parsed_app_event refl

redact_event_fields_example :
    lookup "input_preview" (redact_event pii event)
    ≡ expected pii
        (log_type_of (get "log_type" event))
        "input_preview"
        (lookup "input_preview" event)
redact_event_fields_example = redact_event_fields pii event "input_preview" refl refl

all_parse : all_ingestible config batch ≡ true
unfolding parse get lookup log_type_of
all_parse = refl

ingest_batch_ends_example :
    Answered
      (memory true)
      config
      request
      (ingest_batch (memory true) config request batch (empty_streams true))
ingest_batch_ends_example =
    ingest_batch_ends (memory true) config request
      (λ k s. (not (s.0 k), (λ j. str_eq k j || s.0 j, s.1), refl)) (λ st e s. refl) batch
      (empty_streams true) all_parse
