-- ===== src/Ingestion/Pipeline/Emits.antt =====
-- What a batch publishes, against a description that knows no store.
use mathlib.Core.List.{append-nil, append_assoc}
use inferspect.Prelude.{
  String, ◌≡◌, refl, Bool, true, false, ◌||◌, Option, none, some, List, [], ◌∷◌, ◌++◌, arith, inl,
  inr, Bool-cases, str_eq, eq_iff, if◌then◌else◌,
}
use inferspect.Value.{Value}
use inferspect.Valkey.Streams.{Entry, Streams, StreamLaws}
use inferspect.Ingestion.Validation.{Log, Parsed, parse}
use inferspect.Ingestion.Pipeline.{
  Config, Request, IngestResponse, go_on, empty_response, is_stitched, stream_for, entry_of,
  idem_key, prepare, publish_event, claimed, dedup_and_publish, ingest_parsed, ingest_event,
  ingest_events, ingest_batch,
}
use inferspect.Ingestion.Pipeline.Loop.{ingest_events_split}

-- The keys known so far, and what one event adds to the streams.
abbrev pub Known : Type 0
Known = String → Bool

abbrev pub mark : String → Known → Known
mark k known j = str_eq k j || known j

-- The entries of one stream, of a list of entries with their streams.
abbrev pub entries_of : String → List (String × Entry) → List Entry
entries_of j [] = []
entries_of j ((st, e) ∷ xs) = if str_eq st j then e ∷ entries_of j xs else entries_of j xs

entries_of-append :
    (j : String) (xs ys : List (String × Entry))
    → entries_of j (xs ++ ys) ≡ entries_of j xs ++ entries_of j ys
entries_of-append j [] ys = refl
entries_of-append j ((st, e) ∷ xs) ys = ground (arith, entries_of-append j xs ys)

module _ (v : Streams) (c : Config) (r : Request) where
  abbrev pub emit_log : Known → Log → List (String × Entry) × Known
  emit_log known log =
      let out = (stream_for c log.log_type, entry_of c (prepare v c r log)) ∷ [] in
      if is_stitched (prepare v c r log)
      then (out, known)
      else if known (idem_key log.uuid)
      then ([], known)
      else (out, mark (idem_key log.uuid) known)

  abbrev pub emit : Known → Parsed → List (String × Entry) × Known
  emit known (Parsed.rejected why) = ([], known)
  emit known (Parsed.parsed log) = emit_log known log

  -- A follow-up is always published; any other valid event is, unless its key is known, and makes it
  -- known; an invalid event adds nothing.
  unfoldable pub emits : Known → List Value → List (String × Entry)
  emits known [] = []
  emits known (raw ∷ raws) =
      let (out, known') = emit known (parse c.validate raw) in out ++ emits known' raws

  module _ (laws : StreamLaws v) where
    open laws use {seen, stream, nx_answer, nx_seen, nx_stream, xadd_seen, xadd_stream}

    -- A step from `s` to `s'` that adds `out` to the streams and leaves `known'` as the keys.
    record Adds (s s' : v.Store) (out : List (String × Entry)) (known' : Known) : Type 0 where
      streams : (j : String) → stream j s' ≡ stream j s ++ entries_of j out
      keys : (j : String) → known' j ≡ seen j s'

    publish_event-Adds :
        (log : Log) (t t' : IngestResponse) (s s' : v.Store) (known : Known)
        → ((j : String) → known j ≡ seen j s)
        → publish_event v c r log t s ≡ (go_on t', s')
        → Adds s s' ((stream_for c log.log_type, entry_of c (prepare v c r log)) ∷ []) known
    unfolding publish_event
    publish_event-Adds log t t' s s' known k h =
        let st = stream_for c log.log_type in
        let e = entry_of c (prepare v c r log) in
        record {
          streams = λ j. ground (arith, xadd_stream st j e s, append-nil (stream j s));
          keys = λ j. ground (arith, xadd_seen st j e s, k j);
        }

    claimed-Adds :
        (log : Log) (t t' : IngestResponse) (s s' : v.Store) (known : Known)
        (answer : Option (Bool × v.Store))
        → ((j : String) → known j ≡ seen j s)
        → is_stitched (prepare v c r log) ≡ false
        → v.set_nx (idem_key log.uuid) s ≡ answer
        → claimed v c r log t s answer ≡ (go_on t', s')
        → Adds s s' (emit_log known log).0 (emit_log known log).1
    claimed-Adds log t t' s s' known none k f n h = cc
    claimed-Adds log t t' s s' known (some (true, s1)) k f n h =
        let key = idem_key log.uuid in
        let new_key : known key ≡ false = ground (arith, k key, nx_answer key s s1 true n) in
        let a =
          publish_event-Adds log t t' s1 s' (mark key known)
            (λ j. ground (arith, k j, nx_seen key j s s1 true n)) h in
        rw (f, new_key)
          (record {
            streams = λ j. ground (arith, a.streams j, nx_stream key j s s1 true n);
            keys = a.keys;
          })
    claimed-Adds log t t' s s' known (some (false, s1)) k f n h =
        let key = idem_key log.uuid in
        let old_key : known key ≡ true = ground (arith, k key, nx_answer key s s1 false n) in
        rw (f, old_key)
          (record {
            streams = λ j. ground (arith, nx_stream key j s s1 false n, append-nil (stream j s));
            keys = λ j. ground (arith, k j, k key, nx_seen key j s s1 false n, eq_iff key j);
          })

    dedup-Adds :
        (log : Log) (t t' : IngestResponse) (s s' : v.Store) (known : Known)
        → ((j : String) → known j ≡ seen j s)
        → dedup_and_publish v c r log t s ≡ (go_on t', s')
        → Adds s s' (emit_log known log).0 (emit_log known log).1
    unfolding dedup_and_publish
    dedup-Adds log t t' s s' known k h = elim (Bool-cases (is_stitched (prepare v c r log))) [
      | inl f ↦ rw f (publish_event-Adds log t t' s s' known k (ground arith))
      | inr f ↦
          claimed-Adds log t t' s s' known (v.set_nx (idem_key log.uuid) s) k f refl (ground arith)
    ]

    ingest_parsed-Adds :
        (raw : Value) (p : Parsed) (t t' : IngestResponse) (s s' : v.Store) (known : Known)
        → ((j : String) → known j ≡ seen j s)
        → ingest_parsed v c r raw p t s ≡ (go_on t', s')
        → Adds s s' (emit known p).0 (emit known p).1
    ingest_parsed-Adds raw (Parsed.rejected why) t t' s s' known k h = record {
      streams = λ j. ground (arith, append-nil (stream j s));
      keys = λ j. ground (arith, k j);
    }
    ingest_parsed-Adds raw (Parsed.parsed log) t t' s s' known k h =
        dedup-Adds log t t' s s' known k (ground arith)

    ingest_events-emits :
        (raws : List Value) (t t' : IngestResponse) (s s' : v.Store) (known : Known)
        → ((j : String) → known j ≡ seen j s)
        → ingest_events v c r raws t s ≡ (go_on t', s')
        → (j : String) → stream j s' ≡ stream j s ++ entries_of j (emits known raws)
    unfolding ingest_events ingest_event emits
    ingest_events-emits [] t t' s s' known k h j = ground (arith, append-nil (stream j s))
    ingest_events-emits (raw ∷ raws) t t' s s' known k h j =
        let (t1, s1, first, rest) = ingest_events_split v c r raw raws t t' s s' h in
        let p = parse c.validate raw in
        let a = ingest_parsed-Adds raw p t t1 s s1 known k first in
        let out = (emit known p).0 in
        let ih = ingest_events-emits raws t1 t' s1 s' (emit known p).1 a.keys rest j in
        cc (
          ih,
          a.streams j,
          entries_of-append j out (emits (emit known p).1 raws),
          append_assoc (stream j s) (entries_of j out) (entries_of j (emits (emit known p).1 raws)),
        )

    -- A batch that ends has appended to each stream exactly the entries that the description names
    -- for it, in order, given the keys that the store knew before.
    pub ingest_batch-emits :
        (events : List Value) (t : IngestResponse) (s s' : v.Store)
        → ingest_batch v c r events s ≡ (go_on t, s')
        → (j : String) → stream j s' ≡ stream j s ++ entries_of j (emits (λ k. seen k s) events)
    unfolding ingest_batch
    ingest_batch-emits events t s s' h =
        ingest_events-emits events empty_response t s s' (λ k. seen k s) (λ j. refl) h
