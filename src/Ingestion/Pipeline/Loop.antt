-- ===== src/Ingestion/Pipeline/Loop.antt =====
-- The loop of `ingest_batch`, taken apart.
use inferspect.Prelude.{◌≡◌, refl, List, ◌∷◌}
use inferspect.Value.{Value}
use inferspect.Valkey.Streams.{Streams}
use inferspect.Ingestion.Pipeline.{
  Config, Request, IngestResponse, Progress, go_on, raised, and_then, ingest_event, ingest_events,
}

module _ (v : Streams) (c : Config) (r : Request) where
  and_then-done :
      (ps : Progress × v.Store) (k : IngestResponse → v.Store → Progress × v.Store)
      (t' : IngestResponse) (s' : v.Store)
      → and_then v c r ps k ≡ (go_on t', s')
      → (t1 : IngestResponse) × (s1 : v.Store) × (ps ≡ (go_on t1, s1)) × (k t1 s1 ≡ (go_on t', s'))
  and_then-done (go_on t1, s1) k t' s' h = (t1, s1, refl, h)
  and_then-done (raised f, s1) k t' s' h = cc

  -- A batch that ends has a first event that ends and a rest that ends.
  pub ingest_events_split :
      (raw : Value) (raws : List Value) (t t' : IngestResponse) (s s' : v.Store)
      → ingest_events v c r (raw ∷ raws) t s ≡ (go_on t', s')
      → (t1 : IngestResponse) × (s1 : v.Store) × (ingest_event v c r raw t s ≡ (go_on t1, s1))
        × (ingest_events v c r raws t1 s1 ≡ (go_on t', s'))
  unfolding ingest_events
  ingest_events_split raw raws t t' s s' h =
      and_then-done (ingest_event v c r raw t s) (λ t1 s1. ingest_events v c r raws t1 s1) t' s' h
