-- ===== src/Ingestion/Pipeline/Ends.antt =====
-- When `ingest_batch` is answered.
use inferspect.Prelude.{
  String, ◌≡◌, refl, Bool, true, false, ◌&&◌, some, List, [], ◌∷◌, arith, inl, inr, Bool-cases,
}
use inferspect.Value.{Value}
use inferspect.Valkey.Streams.{Entry, Streams}
use inferspect.Sdk.Schema.{LogType}
use inferspect.Ingestion.Validation.{Log, Parsed, parse}
use inferspect.Ingestion.Pipeline.{
  Config, Request, IngestResponse, Progress, go_on, empty_response, stream_for, entry_of,
  add_accepted, is_stitched, idem_key, prepare, publish_event, claimed, dedup_and_publish,
  with_request_id, ingest_parsed, ingest_event, ingest_events, ingest_batch,
}

abbrev has_id : LogType → Bool
has_id LogType.application = false
has_id LogType.inference = true
has_id LogType.tool_execution = true

-- Whether an event is refused or has a request id.
abbrev pub is_ingestible : Parsed → Bool
is_ingestible (Parsed.rejected why) = true
is_ingestible (Parsed.parsed log) = has_id log.log_type

abbrev pub all_ingestible : Config → List Value → Bool
all_ingestible c [] = true
all_ingestible c (raw ∷ raws) = is_ingestible (parse c.validate raw) && all_ingestible c raws

module _ (v : Streams) (c : Config) (r : Request) where
  abbrev pub Answered : Progress × v.Store → Type 0
  Answered result = (t : IngestResponse) × (s : v.Store) × (result ≡ (go_on t, s))

  module _
      (claims : (k : String) (s : v.Store)
        → (b : Bool) × (s' : v.Store) × (v.set_nx k s ≡ some (b, s')))
      (appends : (st : String) (e : Entry) (s : v.Store) → (v.xadd st e s).0 ≡ true) where
    publish_event-Answered :
        (log : Log) (t : IngestResponse) (s : v.Store) → Answered (publish_event v c r log t s)
    unfolding publish_event
    publish_event-Answered log t s =
        rw (appends (stream_for c log.log_type) (entry_of c (prepare v c r log)) s)
          (add_accepted log.uuid t, _, refl)

    dedup-Answered :
        (log : Log) (t : IngestResponse) (s : v.Store) → Answered (dedup_and_publish v c r log t s)
    unfolding dedup_and_publish
    dedup-Answered log t s = elim (Bool-cases (is_stitched (prepare v c r log))) [
      | inl e ↦ rw e (publish_event-Answered log t s)
      | inr e ↦ let (b, s', n) = claims (idem_key log.uuid) s in rw (e, n) (fresh b s')
    ]
      where
        fresh : (b : Bool) (s' : v.Store) → Answered (claimed v c r log t s (some (b, s')))
        fresh true s' = publish_event-Answered log t s'
        fresh false s' = (_, s', refl)

    with_id-Answered :
        (k : LogType) (log : Log) (t : IngestResponse) (s : v.Store)
        → has_id k ≡ true
        → Answered (with_request_id v c r k log t s)
    with_id-Answered LogType.application log t s h = cc
    with_id-Answered LogType.inference log t s h = dedup-Answered log t s
    with_id-Answered LogType.tool_execution log t s h = dedup-Answered log t s

    parsed-Answered :
        (raw : Value) (p : Parsed) (t : IngestResponse) (s : v.Store)
        → is_ingestible p ≡ true
        → Answered (ingest_parsed v c r raw p t s)
    parsed-Answered raw (Parsed.rejected why) t s h = (_, s, refl)
    parsed-Answered raw (Parsed.parsed log) t s h = with_id-Answered log.log_type log t s h

    events-Answered :
        (raws : List Value) (t : IngestResponse) (s : v.Store)
        → all_ingestible c raws ≡ true
        → Answered (ingest_events v c r raws t s)
    unfolding ingest_events ingest_event
    events-Answered [] t s h = (t, s, refl)
    events-Answered (raw ∷ raws) t s h =
        let (t1, s1, e) = parsed-Answered raw (parse c.validate raw) t s (ground arith) in
        rw e (events-Answered raws t1 s1 (ground arith))

    -- While the store answers every claim and takes every entry, a batch whose events are refused or
    -- have a request id is answered.
    pub ingest_batch_ends :
        (events : List Value) (s : v.Store)
        → all_ingestible c events ≡ true
        → Answered (ingest_batch v c r events s)
    unfolding ingest_batch
    ingest_batch_ends events s h = events-Answered events empty_response s h
