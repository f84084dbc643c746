-- ===== src/Ingestion/Pii/Event.antt =====
-- What `redact_event` does to each field of an event.
use mathlib.Core.Bool.{false≢true}
use inferspect.Prelude.{
  String, Bool, true, false, ◌≡◌, refl, inl, inr, Option, none, some, List, [], ◌∷◌, arith, not,
  ◌&&◌, ◌||◌, str_eq, eq_iff, Bool-cases, sym, ◌∙◌, if◌then◌else◌,
}
use inferspect.Value.{Value, Fields, lookup, get, contains}
use inferspect.Sdk.Schema.{LogType, log_type_of}
use inferspect.Ingestion.Pii.{
  PiiService, text_fields, is_empty, redact_field, redact_fields, redact_nested, redact_event,
}
use inferspect.Ingestion.Pii.Masked.{masked_top, masked_deep, redact_top_lem, redact_deep_lem}
use inferspect.Ingestion.Pii.Changes.{
  redact_top, redact_deep, redact_field-MapsAt, redact_nested-MapsAt,
}

abbrev pub is_one_of : String → List String → Bool
is_one_of k [] = false
is_one_of k (j ∷ js) = str_eq j k || is_one_of k js

-- The value of an event of the given type at key `k`, after redaction.
abbrev redacted : PiiService → Option LogType → String → Option Value → Option Value
redacted svc t k none = none
redacted svc t k (some v) = some (
    if is_one_of k (text_fields t)
    then redact_top svc v
    else if str_eq "metadata" k || str_eq "attributes" k
    then redact_deep svc v
    else v)

-- Two texts that cannot both be the key.
apart : (a b k : String) → str_eq a b ≡ false → str_eq a k ≡ true → str_eq b k ≡ false
apart a b k h ak = elim (Bool-cases (str_eq b k)) [
  | inl bk ↦
      absurd (false≢true (sym h ∙ (eq_iff a b).1 ((eq_iff a k).0 ak ∙ sym ((eq_iff b k).0 bk))))
  | inr e ↦ e
]

lookup-redact_fields :
    (svc : PiiService) (t : Option LogType) (event : Fields) (k : String)
    → lookup k (redact_fields svc (text_fields t) event) ≡ elim (lookup k event) [
      | none ↦ none
      | some v ↦ some (if is_one_of k (text_fields t) then redact_top svc v else v)
    ]
unfolding redact_fields
lookup-redact_fields svc none event k = ground arith
lookup-redact_fields svc (some LogType.inference) event k =
    let e1 = redact_field-MapsAt svc "input_preview" event k in
    let e2 = redact_field-MapsAt svc "output_preview" (redact_field svc "input_preview" event) k in
    ground (arith, apart "input_preview" "output_preview" k refl)
lookup-redact_fields svc (some LogType.tool_execution) event k =
    let e1 = redact_field-MapsAt svc "args_preview" event k in
    let e2 = redact_field-MapsAt svc "result_preview" (redact_field svc "args_preview" event) k in
    ground (arith, apart "args_preview" "result_preview" k refl)
lookup-redact_fields svc (some LogType.application) event k =
    let e1 = redact_field-MapsAt svc "message" event k in ground arith

lookup-redact_dicts :
    (svc : PiiService) (out : Fields) (k : String)
    → lookup k (redact_nested svc "attributes" (redact_nested svc "metadata" out))
      ≡ elim (lookup k out) [
        | none ↦ none
        | some v ↦
            some (if str_eq "metadata" k || str_eq "attributes" k then redact_deep svc v else v)
      ]
lookup-redact_dicts svc out k =
    let e1 = redact_nested-MapsAt svc "metadata" out k in
    let e2 = redact_nested-MapsAt svc "attributes" (redact_nested svc "metadata" out) k in
    ground (arith, apart "metadata" "attributes" k refl)

-- No text field is a dict field.
text_not_dict :
    (t : Option LogType) (k : String)
    → is_one_of k (text_fields t) ≡ true
    → (str_eq "metadata" k || str_eq "attributes" k) ≡ false
text_not_dict none k h = cc
text_not_dict (some LogType.inference) k h = ground (
  arith,
  apart "input_preview" "metadata" k refl,
  apart "output_preview" "metadata" k refl,
  apart "input_preview" "attributes" k refl,
  apart "output_preview" "attributes" k refl,
)
text_not_dict (some LogType.tool_execution) k h = ground (
  arith,
  apart "args_preview" "metadata" k refl,
  apart "result_preview" "metadata" k refl,
  apart "args_preview" "attributes" k refl,
  apart "result_preview" "attributes" k refl,
)
text_not_dict (some LogType.application) k h =
    ground (arith, apart "message" "metadata" k refl, apart "message" "attributes" k refl)

all_passes :
    (svc : PiiService) (t : Option LogType) (event : Fields) (k : String)
    → lookup k (
        redact_nested svc "attributes"
          (redact_nested svc "metadata" (redact_fields svc (text_fields t) event)))
      ≡ redacted svc t k (lookup k event)
all_passes svc t event k = ground (
  arith,
  lookup-redact_dicts svc (redact_fields svc (text_fields t) event) k,
  lookup-redact_fields svc t event k,
  text_not_dict t k,
)

-- Without text fields and without the two dicts there is nothing to do.
untouched :
    (svc : PiiService) (t : Option LogType) (event : Fields) (k : String)
    → is_empty (text_fields t) && not (contains "metadata" event || contains "attributes" event)
      ≡ true
    → lookup k event ≡ redacted svc t k (lookup k event)
unfolding contains
untouched svc none event k h = ground (arith, eq_iff "metadata" k, eq_iff "attributes" k)
untouched svc (some LogType.inference) event k h = cc
untouched svc (some LogType.tool_execution) event k h = cc
untouched svc (some LogType.application) event k h = cc

-- The text fields of the log types, written out.
abbrev pub is_text_key : Option LogType → String → Bool
is_text_key none k = false
is_text_key (some LogType.inference) k = str_eq "input_preview" k || str_eq "output_preview" k
is_text_key (some LogType.tool_execution) k = str_eq "args_preview" k || str_eq "result_preview" k
is_text_key (some LogType.application) k = str_eq "message" k

-- What is expected at a key of an event of the given type.
abbrev pub expected : PiiService → Option LogType → String → Option Value → Option Value
expected svc t k none = none
expected svc t k (some v) = some (
    if is_text_key t k
    then masked_top svc v
    else if str_eq "metadata" k || str_eq "attributes" k
    then masked_deep svc v
    else v)

is_one_of-text_fields :
    (t : Option LogType) (k : String) → is_one_of k (text_fields t) ≡ is_text_key t k
is_one_of-text_fields none k = refl
is_one_of-text_fields (some LogType.inference) k = ground arith
is_one_of-text_fields (some LogType.tool_execution) k = ground arith
is_one_of-text_fields (some LogType.application) k = ground arith

redacted-expected :
    (svc : PiiService) (t : Option LogType) (k : String) (v : Option Value)
    → redacted svc t k v ≡ expected svc t k v
redacted-expected svc t k none = refl
redacted-expected svc t k (some v) =
    rw (is_one_of-text_fields t k, redact_top_lem svc v, redact_deep_lem svc v) refl

-- When both engines are up, each value of an event becomes what its key asks for: a text at a text
-- field of the event's log type is anonymised where entities are found in it, and so is every text of a
-- dict at `metadata` or `attributes`, at any depth of dicts but not in lists; every other value, and
-- every missing key, stays as it is. A text for which an engine raises stays as it is too.
pub redact_event_fields :
    (svc : PiiService) (event : Fields) (k : String)
    → svc.enabled ≡ true
    → svc.ready ≡ true
    → lookup k (redact_event svc event)
      ≡ expected svc (log_type_of (get "log_type" event)) k (lookup k event)
unfolding redact_event
redact_event_fields svc event k on up =
    let t = log_type_of (get "log_type" event) in
    ground (
      arith,
      all_passes svc t event k,
      untouched svc t event k,
      redacted-expected svc t k (lookup k event),
    )

-- Any event keeps a field that is neither a text field of some log type nor a dict field.
pub redact_event_keeps :
    (svc : PiiService) (event : Fields) (k : String)
    → ((t : Option LogType) → is_one_of k (text_fields t) ≡ false)
    → (str_eq "metadata" k || str_eq "attributes" k) ≡ false
    → lookup k (redact_event svc event) ≡ lookup k event
unfolding redact_event
redact_event_keeps svc event k no_text no_dict =
    let t = log_type_of (get "log_type" event) in
    ground (arith, all_passes svc t event k, untouched svc t event k, no_text t)
