-- ===== src/Ingestion/Pipeline.antt =====
-- apps/ingestion-service/ingestion_service/services/ingest_service.py, with the two repositories
-- that it calls, idempotency_repository.py and valkey_publisher.py.
pub mod Loop
pub mod Outcome
pub mod Stamps
pub mod Emits
pub mod Ends
pub mod Failures
use inferspect.Prelude.{
  ℕ, ◌+◌, String, Bool, true, false, not, Option, none, some, List, [], ◌∷◌, ◌++◌, str_append,
  if◌then◌else◌,
}
use inferspect.Value.{
  Value, Fields, null, bool, int, float, str, arr, obj, end, truthy, get, insert, set_default,
}
use inferspect.Value.Codec.{Codec}
use inferspect.Sdk.Schema.{LogType}
use inferspect.Valkey.Streams.{Entry, Streams}
use inferspect.Ingestion.Validation.{Log, Validation, Rejection, Parsed, parse}
use inferspect.Ingestion.Pii.{PiiService, redact_event}

-- The collaborators of `IngestService`, with the names of the publisher's streams. `raw_id` is
-- `str(raw.get("request_id"))`.
pub record Config : Type 0 where
  pub validate : LogType → Fields → Validation
  pub pii : PiiService
  pub codec : Codec
  pub stream_inference : String
  pub stream_tool_execution : String
  pub stream_application : String

-- The arguments of `ingest_batch` besides the events.
pub record Request : Type 0 where
  pub client : String
  pub service : String
  pub received_at : String

pub data Verdict : Type 0 where
  accepted duplicate rejected : Verdict

-- schemas.py; the reason of a rejection stands as the error it was raised with.
pub record EventStatus : Type 0 where
  pub request_id : Option String
  pub status : Verdict
  pub reason : Option Rejection

pub record IngestResponse : Type 0 where
  pub accepted : ℕ
  pub duplicates : ℕ
  pub rejected : ℕ
  pub events : List EventStatus

-- The exceptions that leave `ingest_batch`: `PublishError`, an error of the idempotency store, and
-- the `AttributeError` of reading `request_id` from a model that has none.
pub data Failure : Type 0 where
  publish_error store_error attribute_error : Failure

pub data Progress : Type 0 where
  go_on : IngestResponse → Progress
  raised : Failure → Progress

abbrev pub empty_response : IngestResponse
empty_response = record { accepted = 0; duplicates = 0; rejected = 0; events = [] }

-- `ValkeyPublisher.stream_for`
abbrev pub stream_for : Config → LogType → String
stream_for c LogType.inference = c.stream_inference
stream_for c LogType.tool_execution = c.stream_tool_execution
stream_for c LogType.application = c.stream_application

abbrev pub entry_of : Config → Fields → Entry
entry_of c event = ("payload", c.codec.dumps (obj event)) ∷ []

-- The server-authoritative fields.
unfoldable pub enrich : Request → Fields → Fields
enrich r dump = insert "client" (str r.client) (
    insert "ingest_service" (str r.service)
      (insert "received_at" (str r.received_at) (set_default "metadata" (obj end) dump)))

abbrev pub or_empty : Value → Value
or_empty v = if truthy v then v else obj end

abbrev pub is_true : Value → Bool
is_true (bool b) = b
is_true _ = false

abbrev stitched_in : Value → Bool
stitched_in (obj metadata) = is_true (get "stitched" metadata)
stitched_in _ = false

-- Whether the event is a follow-up that carries a response to an earlier one.
unfoldable pub is_stitched : Fields → Bool
is_stitched event = stitched_in (or_empty (get "metadata" event))

abbrev pub raw_request_id : Config → Value → Option String
raw_request_id c (obj raw) = some (c.codec.text (get "request_id" raw))
raw_request_id c _ = none

abbrev pub add_rejected : Config → Value → Rejection → IngestResponse → IngestResponse
add_rejected c raw why t = record t {
  rejected = t.rejected + 1;
  events =
      t.events
      ++ record { request_id = raw_request_id c raw; status = Verdict.rejected; reason = some why }
        ∷ [];
}

abbrev pub add_duplicate : String → IngestResponse → IngestResponse
add_duplicate id t = record t {
  duplicates = t.duplicates + 1;
  events =
      t.events ++ record { request_id = some id; status = Verdict.duplicate; reason = none } ∷ [];
}

abbrev pub add_accepted : String → IngestResponse → IngestResponse
add_accepted id t = record t {
  accepted = t.accepted + 1;
  events =
      t.events ++ record { request_id = some id; status = Verdict.accepted; reason = none } ∷ [];
}

-- The key of `mark_or_check`.
unfoldable pub idem_key : String → String
idem_key id = str_append "idem:" id

module _ (v : Streams) (c : Config) (r : Request) where
  -- The event as it is published.
  unfoldable pub prepare : Log → Fields
  prepare log = redact_event c.pii (enrich r log.dump)

  -- `publish`, and what follows it.
  unfoldable pub publish_event : Log → IngestResponse → v.Store → Progress × v.Store
  publish_event log t s =
      let (done, s') = v.xadd (stream_for c log.log_type) (entry_of c (prepare log)) s in
      (if done then go_on (add_accepted log.uuid t) else raised publish_error, s')

  abbrev pub claimed : Log → IngestResponse → v.Store → Option (Bool × v.Store) → Progress × v.Store
  claimed log t s none = (raised store_error, s)
  claimed log t s (some (fresh, s')) =
      if fresh then publish_event log t s' else (go_on (add_duplicate log.uuid t), s')

  unfoldable pub dedup_and_publish : Log → IngestResponse → v.Store → Progress × v.Store
  dedup_and_publish log t s =
      if is_stitched (prepare log)
      then publish_event log t s
      else claimed log t s (v.set_nx (idem_key log.uuid) s)

  -- `str(log.request_id)`, which an `ApplicationLog` does not have.
  abbrev pub with_request_id : LogType → Log → IngestResponse → v.Store → Progress × v.Store
  with_request_id LogType.application log t s = (raised attribute_error, s)
  with_request_id LogType.inference log t s = dedup_and_publish log t s
  with_request_id LogType.tool_execution log t s = dedup_and_publish log t s

  abbrev pub ingest_parsed : Value → Parsed → IngestResponse → v.Store → Progress × v.Store
  ingest_parsed raw (Parsed.rejected why) t s = (go_on (add_rejected c raw why t), s)
  ingest_parsed raw (Parsed.parsed log) t s = with_request_id log.log_type log t s

  -- One round of the loop.
  unfoldable pub ingest_event : Value → IngestResponse → v.Store → Progress × v.Store
  ingest_event raw t s = ingest_parsed raw (parse c.validate raw) t s

  abbrev pub and_then :
      Progress × v.Store → (IngestResponse → v.Store → Progress × v.Store) → Progress × v.Store
  and_then (go_on t, s) k = k t s
  and_then (raised f, s) k = (raised f, s)

  unfoldable pub ingest_events : List Value → IngestResponse → v.Store → Progress × v.Store
  ingest_events [] t s = (go_on t, s)
  ingest_events (raw ∷ raws) t s =
      and_then (ingest_event raw t s) (λ t' s'. ingest_events raws t' s')

  unfoldable pub ingest_batch : List Value → v.Store → Progress × v.Store
  ingest_batch events s = ingest_events events empty_response s
