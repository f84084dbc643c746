-- ===== src/Consumer/Decode.antt =====
-- `_decode` of apps/inference-consumer/inference_consumer/services/batch_service.py and of
-- apps/app-log-consumer/app_log_consumer/services/batch_service.py.
use inferspect.Prelude.{ℕ, String, Bool, ◌||◌, Option, none, some, List, if◌then◌else◌}
use inferspect.Value.{Value, Fields, str, obj, get, contains}
use inferspect.Value.Codec.{Codec}

-- What FastStream hands over for one message; `other` is any other Python object.
pub data RawMessage : Type 0 where
  dict : Fields → RawMessage
  bytes : List ℕ → RawMessage
  text : String → RawMessage
  other : RawMessage

abbrev only_dict : Option Value → Option Fields
only_dict (some (obj fs)) = some fs
only_dict _ = none

-- `_try_json`
unfoldable pub try_json : Codec → String → Option Fields
try_json c s = only_dict (c.loads s)

-- `"payload" in d and isinstance(d["payload"], str)`
abbrev text_of : Value → Option String
text_of (str s) = some s
text_of _ = none

abbrev pub payload_of : Fields → Option String
payload_of fs = text_of (get "payload" fs)

abbrev pub unwrap : Codec → Option Fields → Option String → Option Fields
unwrap c bare none = bare
unwrap c bare (some payload) = try_json c payload

abbrev pub unwrap_parsed : Codec → Option Fields → Option Fields
unwrap_parsed c none = none
unwrap_parsed c (some fs) = unwrap c (some fs) (payload_of fs)

-- `is_event` tells a bare event dict; `utf8` is `bytes.decode("utf-8", errors="replace")`.
unfoldable pub decode_with :
    Codec → (List ℕ → String) → (Fields → Bool) → RawMessage → Option Fields
decode_with c utf8 is_event (dict fs) =
    unwrap c (if is_event fs then some fs else none) (payload_of fs)
decode_with c utf8 is_event (bytes b) = unwrap_parsed c (try_json c (utf8 b))
decode_with c utf8 is_event (text s) = unwrap_parsed c (try_json c s)
decode_with c utf8 is_event other = none

abbrev pub is_inference_event : Fields → Bool
is_inference_event fs = contains "log_type" fs

abbrev pub is_app_event : Fields → Bool
is_app_event fs = contains "log_type" fs || contains "ts" fs

-- The two consumers' `_decode`.
unfoldable pub decode : Codec → (List ℕ → String) → RawMessage → Option Fields
decode c utf8 = decode_with c utf8 is_inference_event

unfoldable pub decode_app : Codec → (List ℕ → String) → RawMessage → Option Fields
decode_app c utf8 = decode_with c utf8 is_app_event
