-- ===== src/Consumer/Row.antt =====
-- `_coerce` and `_to_row` of apps/inference-consumer/inference_consumer/repositories/
-- clickhouse_writer.py.
use inferspect.Prelude.{
  String, Bool, true, false, ◌&&◌, ◌||◌, not, List, [], ◌∷◌, map, str_eq, if◌then◌else◌,
}
use inferspect.Value.{Value, Fields, pos, null, bool, int, str, get}
use inferspect.Value.Codec.{Codec}
use inferspect.Consumer.Columns.{is_in, json_columns, nullable_columns, origin_columns}

-- `value is None`
abbrev pub is_null : Value → Bool
is_null null = true
is_null _ = false

abbrev pub json_cell : Codec → String → Value → Value
json_cell c empty null = str empty
json_cell c empty (str s) = str s
json_cell c empty v = str (c.dumps v)

-- Boolean to UInt8.
abbrev pub plain_cell : Value → Value
plain_cell (bool b) = int (pos (if b then 1 else 0))
plain_cell v = v

-- The ladder of `_coerce`, over its tests on the column.
abbrev cell : Codec → Bool → Bool → Bool → Bool → Bool → String → String → Value → Value
cell c is_json nullable is_client is_origin is_finish json_default origin_default value =
    if is_json
    then json_cell c json_default value
    else if is_null value && nullable
    then null
    else if is_client && is_null value
    then str ""
    else if is_origin && is_null value
    then str origin_default
    else if is_finish && is_null value
    then str ""
    else plain_cell value

unfoldable pub coerce : Codec → Fields → String → Value
coerce c event col =
    cell c (is_in col json_columns) (is_in col nullable_columns) (str_eq col "client")
      (is_in col origin_columns) (str_eq col "finish_reason")
      (if str_eq col "metadata" then "{}" else "[]") (if str_eq col "source" then "sdk" else "")
      (get col event)

unfoldable pub to_row : Codec → List String → Fields → List Value
to_row c columns event = map (λ col. coerce c event col) columns

-- The columns for which `_coerce` puts a text in the place of None.
abbrev pub defaulted : String → Bool
defaulted col =
    is_in col json_columns
    || (is_in col origin_columns || (str_eq col "client" || str_eq col "finish_reason"))

abbrev disjoint : List String → List String → Bool
disjoint [] ys = true
disjoint (x ∷ xs) ys = not (is_in x ys) && disjoint xs ys
