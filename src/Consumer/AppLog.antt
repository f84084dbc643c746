-- ===== src/Consumer/AppLog.antt =====
-- apps/app-log-consumer: the row of an application log, and the consumer's setup.
use inferspect.Prelude.{ℕ, String, ◌&&◌, List, [], ◌∷◌, map, str_eq, if◌then◌else◌}
use inferspect.Value.{Value, Fields, str, get}
use inferspect.Value.Codec.{Codec}
use inferspect.Consumer.Decode.{RawMessage, decode_app}
use inferspect.Consumer.Columns.{is_in, application_columns}
use inferspect.Consumer.Row.{is_null, json_cell}
use inferspect.Consumer.Batch.{Setup}

abbrev pub app_origin_columns : List String
app_origin_columns = "source" ∷ "host_id" ∷ "container_id" ∷ []

-- `_coerce` of apps/app-log-consumer/app_log_consumer/repositories/clickhouse_writer.py.
unfoldable pub coerce_app : Codec → Fields → String → Value
coerce_app c event col =
    let value = get col event in
    if str_eq col "attributes"
    then json_cell c "{}" value
    else if str_eq col "client" && is_null value
    then str ""
    else if is_in col app_origin_columns && is_null value
    then str (if str_eq col "source" then "sdk" else "")
    else value

abbrev pub app_setup : Codec → (RawMessage → String) → (List ℕ → String) → String → Setup
app_setup codec show utf8 dlq_stream = record {
  codec = codec;
  show = show;
  decoder = decode_app codec utf8;
  row = λ event. map (λ col. coerce_app codec event col) application_columns;
  dlq_stream = dlq_stream;
}
