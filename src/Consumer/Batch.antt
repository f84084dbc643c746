-- ===== src/Consumer/Batch.antt =====
-- `BatchService.handle_batch` with the writer and the dead-letter publisher, which read the same in
-- apps/inference-consumer and apps/app-log-consumer but for the decoder and the row.
use inferspect.Prelude.{
  ℕ, String, Bool, true, false, Option, none, some, List, [], ◌∷◌, map, length, str_take,
}
use inferspect.Value.{Value, Fields, str, obj, end, field}
use inferspect.Value.Codec.{Codec}
use inferspect.Valkey.Streams.{Entry, Streams}
use inferspect.Consumer.Decode.{RawMessage, decode}
use inferspect.Consumer.Row.{to_row}

-- The ClickHouse client: an insert of rows, with the text of the exception if it raised.
pub record Table : Type 1 where
  pub Rows : Type 0
  pub insert : List (List Value) → Rows → Option String × Rows

-- The answer of `handle_batch`, or an exception of the dead-letter publisher.
pub data Handled : Type 0 where
  wrote : ℕ → Handled
  dlq_error : Handled

-- What a consumer is built with. `show` is `str(raw)`.
pub record Setup : Type 0 where
  pub codec : Codec
  pub show : RawMessage → String
  pub decoder : RawMessage → Option Fields
  pub row : Fields → List Value
  pub dlq_stream : String

-- `malformed.append({"original": str(raw)[:1000]})`
abbrev pub malformed_item : Setup → RawMessage → Fields
malformed_item c raw = field "original" (str (str_take 1000 (c.show raw))) end

abbrev sort_one :
    Setup → RawMessage → Option Fields → List Fields × List Fields → List Fields × List Fields
sort_one c raw none (events, malformed) = (events, malformed_item c raw ∷ malformed)
sort_one c raw (some fs) (events, malformed) = (fs ∷ events, malformed)

-- The decoded events and the malformed items, each in the order of the messages.
unfoldable pub sort_messages : Setup → List RawMessage → List Fields × List Fields
sort_messages c [] = ([], [])
sort_messages c (raw ∷ raws) = sort_one c raw (c.decoder raw) (sort_messages c raws)

module _ (v : Streams) (w : Table) (c : Setup) where
  abbrev pub dlq_entry : String → Fields → Entry
  dlq_entry error ev = ("payload", c.codec.dumps (obj ev)) ∷ ("error", str_take 500 error) ∷ []

  -- `publish_failed`; `false` is an exception of `xadd`.
  unfoldable pub publish_failed : String → List Fields → v.Store → Bool × v.Store
  publish_failed error [] s = (true, s)
  publish_failed error (ev ∷ evs) s =
      let (done, s') = v.xadd c.dlq_stream (dlq_entry error ev) s in
      elim done [ true ↦ publish_failed error evs s' | false ↦ (false, s') ]

  abbrev pub after_dlq : ℕ → Bool × v.Store → w.Rows → Handled × v.Store × w.Rows
  after_dlq n (true, s) rows = (wrote n, s, rows)
  after_dlq n (false, s) rows = (dlq_error, s, rows)

  abbrev pub after_insert :
      List Fields → Option String × w.Rows → v.Store → Handled × v.Store × w.Rows
  after_insert events (none, rows) s = (wrote (length events), s, rows)
  after_insert events (some error, rows) s = after_dlq 0 (publish_failed error events s) rows

  -- From `if not events` on.
  abbrev pub write_events : List Fields → Bool × v.Store → w.Rows → Handled × v.Store × w.Rows
  write_events events (false, s) rows = (dlq_error, s, rows)
  write_events [] (true, s) rows = (wrote 0, s, rows)
  write_events (ev ∷ evs) (true, s) rows =
      after_insert (ev ∷ evs) (w.insert (map c.row (ev ∷ evs)) rows) s

  unfoldable pub handle_batch : List RawMessage → v.Store → w.Rows → Handled × v.Store × w.Rows
  handle_batch raws s rows =
      let (events, malformed) = sort_messages c raws in
      write_events events (publish_failed "malformed-message" malformed s) rows

-- The inference consumer's setup over its columns.
abbrev pub inference_setup :
    Codec → (RawMessage → String) → (List ℕ → String) → List String → String → Setup
inference_setup codec show utf8 columns dlq_stream = record {
  codec = codec;
  show = show;
  decoder = decode codec utf8;
  row = to_row codec columns;
  dlq_stream = dlq_stream;
}
