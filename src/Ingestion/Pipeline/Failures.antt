-- ===== src/Ingestion/Pipeline/Failures.antt =====
-- The ways a batch fails, and what a retry of it meets.
use inferspect.Prelude.{
  String, ◌≡◌, ◌≢◌, refl, Bool, true, false, Option, none, some, List, [], ◌∷◌, ◌++◌, arith,
  eq_refl, ◌∙◌,
}
use inferspect.Value.{Value}
use inferspect.Sdk.Schema.{LogType}
use inferspect.Valkey.Streams.{Streams, StreamLaws}
use inferspect.Ingestion.Validation.{Log, Parsed, parse}
use inferspect.Ingestion.Pipeline.{
  Config, Request, IngestResponse, go_on, raised, Failure, add_duplicate, is_stitched, stream_for,
  entry_of, idem_key, prepare, publish_event, claimed, dedup_and_publish, ingest_event,
  ingest_events, ingest_batch,
}
use inferspect.Ingestion.Pipeline.Loop.{ingest_events_split}

module _ (v : Streams) (c : Config) (r : Request) where
  -- A valid application event has no `request_id` to read.
  application_raises :
      (raw : Value) (log : Log) (t : IngestResponse) (s : v.Store)
      → parse c.validate raw ≡ Parsed.parsed log
      → log.log_type ≡ LogType.application
      → ingest_event v c r raw t s ≡ (raised Failure.attribute_error, s)
  unfolding ingest_event
  application_raises raw log t s p a = ground arith

  never_ends :
      (before after : List Value) (raw : Value) (log : Log) (t t' : IngestResponse) (s s' : v.Store)
      → parse c.validate raw ≡ Parsed.parsed log
      → log.log_type ≡ LogType.application
      → ingest_events v c r (before ++ raw ∷ after) t s ≢ (go_on t', s')
  never_ends [] after raw log t t' s s' p a h =
      let (t1, s1, first, rest) = ingest_events_split v c r raw after t t' s s' h in
      cc (application_raises raw log t s p a)
  never_ends (b ∷ before) after raw log t t' s s' p a h =
      let (t1, s1, first, rest) = ingest_events_split v c r b (before ++ raw ∷ after) t t' s s' h in
      never_ends before after raw log t1 t' s1 s' p a rest

  -- A batch that holds a valid application event is never answered: wherever it stands, and whatever
  -- the other events are, `ingest_batch` raises.
  pub application_event_fails_batch :
      (before after : List Value) (raw : Value) (log : Log) (t : IngestResponse) (s s' : v.Store)
      → parse c.validate raw ≡ Parsed.parsed log
      → log.log_type ≡ LogType.application
      → ingest_batch v c r (before ++ raw ∷ after) s ≢ (go_on t, s')
  unfolding ingest_batch
  application_event_fails_batch before after raw log t s s' p a =
      never_ends before after raw log _ t s s' p a

  module _ (laws : StreamLaws v) where
    open laws use {seen, stream, nx_answer, nx_seen, nx_stream, xadd_seen}

    -- A publish that raised has marked the event's key.
    failed_is_marked :
        (log : Log) (t : IngestResponse) (s s' : v.Store) (answer : Option (Bool × v.Store))
        → v.set_nx (idem_key log.uuid) s ≡ answer
        → claimed v c r log t s answer ≡ (raised Failure.publish_error, s')
        → seen (idem_key log.uuid) s' ≡ true
    unfolding publish_event
    failed_is_marked log t s s' none n h = cc
    failed_is_marked log t s s' (some (false, s1)) n h = cc
    failed_is_marked log t s s' (some (true, s1)) n h =
        let key = idem_key log.uuid in
        let st = stream_for c log.log_type in
        ground (
          arith,
          xadd_seen st key (entry_of c (prepare v c r log)) s1,
          nx_seen key key s s1 true n,
          eq_refl key,
        )

    dedup_failed_is_marked :
        (log : Log) (t : IngestResponse) (s s' : v.Store)
        → is_stitched (prepare v c r log) ≡ false
        → dedup_and_publish v c r log t s ≡ (raised Failure.publish_error, s')
        → seen (idem_key log.uuid) s' ≡ true
    unfolding dedup_and_publish
    dedup_failed_is_marked log t s s' fresh h =
        failed_is_marked log t s s' (v.set_nx (idem_key log.uuid) s) refl (ground arith)

    dedup_skips_marked :
        (log : Log) (t : IngestResponse) (s s' : v.Store) (b : Bool)
        → is_stitched (prepare v c r log) ≡ false
        → seen (idem_key log.uuid) s ≡ true
        → v.set_nx (idem_key log.uuid) s ≡ some (b, s')
        → dedup_and_publish v c r log t s ≡ (go_on (add_duplicate log.uuid t), s')
    unfolding dedup_and_publish
    dedup_skips_marked log t s s' b fresh marked n =
        ground (arith, nx_answer (idem_key log.uuid) s s' b n)

    -- A log that reached the publisher is of a type that has a request id.
    publishes_as :
        (raw : Value) (log : Log) (t : IngestResponse) (s s' : v.Store)
        → parse c.validate raw ≡ Parsed.parsed log
        → ingest_event v c r raw t s ≡ (raised Failure.publish_error, s')
        → (dedup_and_publish v c r log t s ≡ (raised Failure.publish_error, s'))
          × (log.log_type ≢ LogType.application)
    unfolding ingest_event
    publishes_as raw log t s s' p h = (ground arith, ground arith)

    ingest_event-dedup :
        (raw : Value) (log : Log) (t : IngestResponse) (s : v.Store)
        → parse c.validate raw ≡ Parsed.parsed log
        → log.log_type ≢ LogType.application
        → ingest_event v c r raw t s ≡ dedup_and_publish v c r log t s
    unfolding ingest_event
    ingest_event-dedup raw log t s p na = ground arith

    -- An event that is no follow-up, and whose publish raised, is lost: once its key is marked, a
    -- retry in any later store, whatever else happened in it, counts it as a duplicate and appends
    -- nothing to any stream.
    pub retry_after_failure_is_lost :
        (raw : Value) (log : Log) (t t2 : IngestResponse) (s s1 s2 s3 : v.Store) (b : Bool)
        → parse c.validate raw ≡ Parsed.parsed log
        → is_stitched (prepare v c r log) ≡ false
        → ingest_event v c r raw t s ≡ (raised Failure.publish_error, s1)
        → ((k : String) → seen k s1 ≡ true → seen k s2 ≡ true)
        → v.set_nx (idem_key log.uuid) s2 ≡ some (b, s3)
        → (ingest_event v c r raw t2 s2 ≡ (go_on (add_duplicate log.uuid t2), s3))
          × ((j : String) → stream j s3 ≡ stream j s2)
    retry_after_failure_is_lost raw log t t2 s s1 s2 s3 b p fresh failed later n =
        let (d, na) = publishes_as raw log t s s1 p failed in
        let key = idem_key log.uuid in
        let marked = later key (dedup_failed_is_marked log t s s1 fresh d) in
        (
          ingest_event-dedup raw log t2 s2 p na ∙ dedup_skips_marked log t2 s2 s3 b fresh marked n,
          λ j. nx_stream key j s2 s3 b n,
        )
