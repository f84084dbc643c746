-- ===== src/Tests/Consume.antt =====
-- The consumers over streams and a table in memory.
use inferspect.Prelude.{◌≡◌, ◌++◌, refl, some, true, List, [], ◌∷◌, String}
use inferspect.Value.{Value, Fields, str, bool, end, field, get, lookup, contains}
use inferspect.Value.Codec.{Codec}
use inferspect.Consumer.Decode.{RawMessage, dict, text, bytes, other, try_json, decode, decode_with}
use inferspect.Consumer.AppLog.{app_setup}
use inferspect.Ingestion.Pipeline.{Config}
use inferspect.Tests.Ingest.{config}
use inferspect.Consumer.Arrival.{decode_published}
use inferspect.Consumer.Columns.{inference_columns}
use inferspect.Consumer.Batch.{
  Table, wrote, Setup, sort_messages, publish_failed, handle_batch, inference_setup,
}
use inferspect.Consumer.Returns.{Returns, handle_batch-Returns}
use inferspect.Consumer.Routing.{Ended, decoded, undecoded, dead_letters, handle_batch_routes}
use inferspect.Tests.Memory.{memory, empty_streams, memory_laws, two_texts}

abbrev event : Fields
event = field "log_type" (str "inference") (field "streaming" (bool true) end)

abbrev wrapper : Fields
wrapper = field "payload" (str "inner") end

abbrev codec : Codec
codec = two_texts event wrapper

abbrev publishing : Config
publishing = record config { codec = codec }

-- One event in the three forms of a message.
abbrev arrived : List (RawMessage × Fields)
arrived = (dict wrapper, event) ∷ (text "outer", event) ∷ (bytes (123 ∷ []), event) ∷ []

decode_published_example :
    (sort_messages
        (inference_setup codec (λ raw. "raw") (λ b. "outer") inference_columns "dlq")
        (dict wrapper ∷ text "outer" ∷ bytes (123 ∷ []) ∷ [])
      ≡ (event ∷ event ∷ event ∷ [], []))
    × (sort_messages
          (app_setup codec (λ raw. "raw") (λ b. "outer") "dlq")
          (dict wrapper ∷ text "outer" ∷ bytes (123 ∷ []) ∷ [])
        ≡ (event ∷ event ∷ event ∷ [], []))
decode_published_example =
    decode_published publishing (λ b. "outer") (λ raw. "raw") inference_columns "dlq" arrived
      ((refl, refl), ((refl, refl), ((refl, refl), tt)))

-- A table that takes no rows.
abbrev closed_table : Table
closed_table = record { Rows = List (List Value); insert = λ rows table. (some "closed", table) }

abbrev setup : Setup
setup = inference_setup codec (λ raw. "raw") (λ b. "outer") ("streaming" ∷ []) "dlq"

-- A message in its wrapper, and one that is no event.
abbrev messages : List RawMessage
messages = dict wrapper ∷ other ∷ []

abbrev stored : (memory true).Store
stored = (handle_batch (memory true) closed_table setup messages (empty_streams true) []).1

batch_runs :
    handle_batch (memory true) closed_table setup messages (empty_streams true) []
    ≡ (wrote 0, stored, [])
unfolding handle_batch sort_messages publish_failed decode decode_with try_json get lookup contains
batch_runs = refl

handle_batch_routes_example :
    (dead : List (List (String × String))) × Ended
      (memory true)
      closed_table
      setup
      (memory_laws true)
      (decoded setup messages)
      []
      0
      []
      dead
    × (stored.1 "dlq"
        ≡ ([] ++ dead_letters setup "malformed-message" (undecoded setup messages)) ++ dead)
handle_batch_routes_example =
    handle_batch_routes (memory true) closed_table setup (memory_laws true) messages
      (empty_streams true) stored [] [] 0 batch_runs

handle_batch-Returns_example :
    Returns
      (memory true)
      closed_table
      setup
      (handle_batch (memory true) closed_table setup messages (empty_streams true) [])
handle_batch-Returns_example =
    handle_batch-Returns (memory true) closed_table setup (λ st e s. refl) messages
      (empty_streams true) []
