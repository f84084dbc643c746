-- ===== src/Ingestion/Pii.antt =====
-- apps/ingestion-service/ingestion_service/services/pii_service.py: redaction with Presidio,
-- whose analyzer and anonymizer are parameters.
pub mod Coverage
pub mod Changes
pub mod Masked
pub mod Event
use inferspect.Prelude.{
  String, Bool, true, false, not, ◌&&◌, ◌||◌, Option, none, some, List, [], ◌∷◌, str_eq,
  if◌then◌else◌,
}
use inferspect.Value.{
  Value, Fields, null, bool, int, float, str, arr, obj, end, field, lookup, get, contains, insert,
}
use inferspect.Sdk.Schema.{LogType, log_type_of}

-- `analyze` lists the entities found in a text and `anonymize` replaces them; `none` is an exception.
-- `ready` says that both engines were built.
pub record PiiService : Type 0 where
  pub enabled : Bool
  pub ready : Bool
  pub analyze : String → Option (List String)
  pub anonymize : String → List String → Option String

abbrev pub anonymized : PiiService → String → Option (List String) → String
anonymized svc text none = text
anonymized svc text (some []) = text
anonymized svc text (some (r ∷ rs)) = elim (svc.anonymize text (r ∷ rs)) [
  | none ↦ text
  | some anon ↦ anon
]

-- `_redact_text`: an exception passes the text through.
unfoldable pub redact_text : PiiService → String → String
redact_text svc text = anonymized svc text (svc.analyze text)

unfoldable mutual
  -- One value of `_redact_dict`.
  pub redact_value : PiiService → Value → Value
  redact_value svc (str s) = str (if str_eq s "" then s else redact_text svc s)
  redact_value svc (obj fs) = obj (redact_dict svc fs)
  redact_value svc null = null
  redact_value svc (bool b) = bool b
  redact_value svc (int n) = int n
  redact_value svc (float r) = float r
  redact_value svc (arr xs) = arr xs

  pub redact_dict : PiiService → Fields → Fields
  redact_dict svc end = end
  redact_dict svc (field k v fs) = field k (redact_value svc v) (redact_dict svc fs)

-- `_TEXT_FIELDS_BY_LOG_TYPE.get(log_type, ())`
abbrev pub text_fields : Option LogType → List String
text_fields none = []
text_fields (some LogType.inference) = "input_preview" ∷ "output_preview" ∷ []
text_fields (some LogType.tool_execution) = "args_preview" ∷ "result_preview" ∷ []
text_fields (some LogType.application) = "message" ∷ []

-- `if isinstance(out.get(field), str) and out[field]`
abbrev pub redact_field_at : PiiService → String → Fields → Value → Fields
redact_field_at svc k out (str s) =
    if str_eq s "" then out else insert k (str (redact_text svc s)) out
redact_field_at svc k out _ = out

unfoldable pub redact_field : PiiService → String → Fields → Fields
redact_field svc k out = redact_field_at svc k out (get k out)

unfoldable pub redact_fields : PiiService → List String → Fields → Fields
redact_fields svc [] out = out
redact_fields svc (k ∷ ks) out = redact_fields svc ks (redact_field svc k out)

-- `if isinstance(out.get(dict_field), dict)`
abbrev pub redact_nested_at : PiiService → String → Fields → Value → Fields
redact_nested_at svc k out (obj fs) = insert k (obj (redact_dict svc fs)) out
redact_nested_at svc k out _ = out

unfoldable pub redact_nested : PiiService → String → Fields → Fields
redact_nested svc k out = redact_nested_at svc k out (get k out)

abbrev pub is_empty : List String → Bool
is_empty [] = true
is_empty (k ∷ ks) = false

unfoldable pub redact_event : PiiService → Fields → Fields
redact_event svc event =
    let fields = text_fields (log_type_of (get "log_type" event)) in
    if not svc.enabled || not svc.ready
    then event
    else if is_empty fields && not (contains "metadata" event || contains "attributes" event)
    then event
    else redact_nested svc "attributes"
        (redact_nested svc "metadata" (redact_fields svc fields event))
