-- ===== src/Consumer/Arrival.antt =====
-- From the entries that the ingestion service publishes to the events of the consumers.
use inferspect.Prelude.{ℕ, ◌≡◌, refl, String, true, false, some, List, [], ◌∷◌, All, map, arith}
use inferspect.Value.{Fields, str, obj, end, field, lookup, get, contains}
use inferspect.Valkey.Streams.{Entry}
use inferspect.Ingestion.Pipeline.{Config, entry_of}
use inferspect.Consumer.Decode.{
  RawMessage, dict, text, bytes, other, try_json, decode, decode_app, decode_with,
}
use inferspect.Consumer.Batch.{inference_setup, sort_messages}
use inferspect.Consumer.AppLog.{app_setup}

-- The fields of a stream's entry.
abbrev pub as_dict : Entry → Fields
as_dict [] = end
as_dict ((k, v) ∷ rest) = field k (str v) (as_dict rest)

module _ (c : Config) (utf8 : List ℕ → String) where
  -- The message brings the entry that is published of an event: as a dict, or as a text or bytes that
  -- load as that dict.
  abbrev pub Carries : RawMessage → Fields → Type 0
  Carries (dict fs) event = fs ≡ as_dict (entry_of c event)
  Carries (text s) event = c.codec.loads s ≡ some (obj (as_dict (entry_of c event)))
  Carries (bytes b) event = c.codec.loads (utf8 b) ≡ some (obj (as_dict (entry_of c event)))
  Carries other event = false ≡ true

  -- And the text of the event loads back.
  abbrev pub IsPublished : RawMessage × Fields → Type 0
  IsPublished (raw, event) =
      Carries raw event × (c.codec.loads (c.codec.dumps (obj event)) ≡ some (obj event))

  decode_carried :
      (raw : RawMessage) (event : Fields)
      → IsPublished (raw, event)
      → (decode c.codec utf8 raw ≡ some event) × (decode_app c.codec utf8 raw ≡ some event)
  unfolding decode decode_app decode_with try_json get lookup contains
  decode_carried (dict fs) event h = let (carried, back) = h in rw (carried, back) (refl, refl)
  decode_carried (text s) event h = let (carried, back) = h in (ground arith, ground arith)
  decode_carried (bytes b) event h = let (carried, back) = h in (ground arith, ground arith)
  decode_carried other event h = absurd (ground arith)

  abbrev raws_of : List (RawMessage × Fields) → List RawMessage
  raws_of pairs = map (λ pair. pair.0) pairs

  abbrev events_of : List (RawMessage × Fields) → List Fields
  events_of pairs = map (λ pair. pair.1) pairs

  -- Messages that bring the entries published of events whose texts load back are sorted by both
  -- consumers into exactly these events, in their order, and no malformed message.
  pub decode_published :
      (show : RawMessage → String) (columns : List String) (dlq_stream : String)
      (pairs : List (RawMessage × Fields))
      → All IsPublished pairs
      → (sort_messages (inference_setup c.codec show utf8 columns dlq_stream) (raws_of pairs)
          ≡ (events_of pairs, []))
        × (sort_messages (app_setup c.codec show utf8 dlq_stream) (raws_of pairs)
            ≡ (events_of pairs, []))
  unfolding sort_messages
  decode_published show columns dlq_stream [] h = (refl, refl)
  decode_published show columns dlq_stream ((raw, event) ∷ pairs) h =
      let one = decode_carried raw event h.0 in
      let rest = decode_published show columns dlq_stream pairs h.1 in
      (rw (one.0, rest.0) refl, rw (one.1, rest.1) refl)
