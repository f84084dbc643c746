-- ===== src/Ingestion/Pipeline/Outcome.antt =====
-- What `ingest_batch` reports.
use native.Mathlib.Nat.{add-zero}
use mathlib.Core.Path.{subst}
use inferspect.Prelude.{
  ℕ, suc, ◌+◌, ◌≡◌, Bool, List, [], ◌∷◌, ◌++◌, arith, length, length-append, String, Option, some,
  none,
}
use inferspect.Value.{Value}
use inferspect.Valkey.Streams.{Streams}
use inferspect.Ingestion.Validation.{Log, Parsed, Rejection, parse}
use inferspect.Ingestion.Pipeline.Loop.{ingest_events_split}
use inferspect.Ingestion.Pipeline.{
  Config, Request, Verdict, EventStatus, IngestResponse, go_on, empty_response, add_accepted,
  add_duplicate, add_rejected, raw_request_id, idem_key, publish_event, claimed, dedup_and_publish,
  ingest_parsed, ingest_event, ingest_events, ingest_batch,
}

abbrev pub is_verdict : Verdict → Verdict → ℕ
is_verdict Verdict.accepted Verdict.accepted = 1
is_verdict Verdict.duplicate Verdict.duplicate = 1
is_verdict Verdict.rejected Verdict.rejected = 1
is_verdict _ _ = 0

-- How many statuses are of a kind.
abbrev pub count_of : Verdict → List EventStatus → ℕ
count_of k [] = 0
count_of k (e ∷ es) = is_verdict k e.status + count_of k es

count_of-append :
    (k : Verdict) (xs ys : List EventStatus) → count_of k (xs ++ ys) ≡ count_of k xs + count_of k ys
count_of-append k [] ys = omega arith
count_of-append k (x ∷ xs) ys = omega (arith, count_of-append k xs ys)

-- A response over `n` events whose counters are those of its statuses.
pub record Tallied (n : ℕ) (t : IngestResponse) : Type 0 where
  pub size : length t.events ≡ n
  pub accepted_count : t.accepted ≡ count_of Verdict.accepted t.events
  pub duplicate_count : t.duplicates ≡ count_of Verdict.duplicate t.events
  pub rejected_count : t.rejected ≡ count_of Verdict.rejected t.events

one_of_three :
    (es : List EventStatus)
    → count_of Verdict.accepted es + count_of Verdict.duplicate es + count_of Verdict.rejected es
      ≡ length es
one_of_three [] = omega arith
one_of_three (e ∷ es) = ground (arith, one_of_three es)

module _ (n : ℕ) (t : IngestResponse) (h : Tallied n t) where
  count_snoc :
      (k : Verdict) (e : EventStatus)
      → count_of k (t.events ++ e ∷ []) ≡ count_of k t.events + is_verdict k e.status
  count_snoc k e = omega (arith, count_of-append k t.events (e ∷ []))

  size_snoc : (e : EventStatus) → length (t.events ++ e ∷ []) ≡ n + 1
  size_snoc e = omega (arith, length-append t.events (e ∷ []), h.size)

  add_accepted-Tallied : (id : String) → Tallied (n + 1) (add_accepted id t)
  add_accepted-Tallied id =
      let e : EventStatus = record {
        request_id = some id;
        status = Verdict.accepted;
        reason = none;
      } in
      ground (
        arith,
        size_snoc e,
        count_snoc Verdict.accepted e,
        count_snoc Verdict.duplicate e,
        count_snoc Verdict.rejected e,
      )

  add_duplicate-Tallied : (id : String) → Tallied (n + 1) (add_duplicate id t)
  add_duplicate-Tallied id =
      let e : EventStatus = record {
        request_id = some id;
        status = Verdict.duplicate;
        reason = none;
      } in
      ground (
        arith,
        size_snoc e,
        count_snoc Verdict.accepted e,
        count_snoc Verdict.duplicate e,
        count_snoc Verdict.rejected e,
      )

  add_rejected-Tallied :
      (c : Config) (raw : Value) (why : Rejection) → Tallied (n + 1) (add_rejected c raw why t)
  add_rejected-Tallied c raw why =
      let e : EventStatus = record {
        request_id = raw_request_id c raw;
        status = Verdict.rejected;
        reason = some why;
      } in
      ground (
        arith,
        size_snoc e,
        count_snoc Verdict.accepted e,
        count_snoc Verdict.duplicate e,
        count_snoc Verdict.rejected e,
      )

module _ (v : Streams) (c : Config) (r : Request) (n : ℕ) (t t' : IngestResponse) (s' : v.Store)
    (h : Tallied n t) where
  publish_event-Tallied :
      (log : Log) (s : v.Store) → publish_event v c r log t s ≡ (go_on t', s') → Tallied (n + 1) t'
  unfolding publish_event
  publish_event-Tallied log s e = ground (arith, add_accepted-Tallied n t h log.uuid)

  claimed-Tallied :
      (log : Log) (s : v.Store) (answer : Option (Bool × v.Store))
      → claimed v c r log t s answer ≡ (go_on t', s')
      → Tallied (n + 1) t'
  claimed-Tallied log s none e = ground arith
  claimed-Tallied log s (some (fresh, s1)) e =
      ground (arith, publish_event-Tallied log s1, add_duplicate-Tallied n t h log.uuid)

  dedup-Tallied :
      (log : Log) (s : v.Store)
      → dedup_and_publish v c r log t s ≡ (go_on t', s')
      → Tallied (n + 1) t'
  unfolding dedup_and_publish
  dedup-Tallied log s e =
      ground
        (arith, publish_event-Tallied log s, claimed-Tallied log s (v.set_nx (idem_key log.uuid) s))

  ingest_parsed-Tallied :
      (raw : Value) (p : Parsed) (s : v.Store)
      → ingest_parsed v c r raw p t s ≡ (go_on t', s')
      → Tallied (n + 1) t'
  ingest_parsed-Tallied raw (Parsed.rejected why) s e =
      ground (arith, add_rejected-Tallied n t h c raw why)
  ingest_parsed-Tallied raw (Parsed.parsed log) s e = ground (arith, dedup-Tallied log s)

ingest_events-Tallied :
    (v : Streams) (c : Config) (r : Request) (raws : List Value) (n : ℕ) (t t' : IngestResponse)
    (s s' : v.Store)
    → Tallied n t
    → ingest_events v c r raws t s ≡ (go_on t', s')
    → Tallied (n + length raws) t'
unfolding ingest_events ingest_event
ingest_events-Tallied v c r [] n t t' s s' h e = ground (arith, add-zero n)
ingest_events-Tallied v c r (raw ∷ raws) n t t' s s' h e =
    let (t1, s1, first, rest) = ingest_events_split v c r raw raws t t' s s' e in
    let h1 = ingest_parsed-Tallied v c r n t t1 s1 h raw (parse c.validate raw) s first in
    let all = ingest_events-Tallied v c r raws (n + 1) t1 t' s1 s' h1 rest in
    let size : n + 1 + length raws ≡ n + suc (length raws) = omega arith in
    subst (λ (m : ℕ). Tallied m t') size all

-- A batch that ends has one status for each event, and each counter of the response is the number of
-- statuses of its kind, so that the three add up to the size of the batch.
pub ingest_batch_counts :
    (v : Streams) (c : Config) (r : Request) (events : List Value) (t : IngestResponse)
    (s s' : v.Store)
    → ingest_batch v c r events s ≡ (go_on t, s')
    → (length t.events ≡ length events)
      × (t.accepted ≡ count_of Verdict.accepted t.events)
      × (t.duplicates ≡ count_of Verdict.duplicate t.events)
      × (t.rejected ≡ count_of Verdict.rejected t.events)
      × (t.accepted + t.duplicates + t.rejected ≡ length events)
unfolding ingest_batch
ingest_batch_counts v c r events t s s' h =
    let start : Tallied 0 empty_response = omega arith in
    let d = ingest_events-Tallied v c r events 0 empty_response t s s' start h in
    (
      omega (arith, d.size),
      d.accepted_count,
      d.duplicate_count,
      d.rejected_count,
      omega (
        arith,
        one_of_three t.events,
        d.size,
        d.accepted_count,
        d.duplicate_count,
        d.rejected_count,
      ),
    )
