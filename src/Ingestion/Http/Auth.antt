-- ===== src/Ingestion/Http/Auth.antt =====
-- apps/ingestion-service/ingestion_service/services/auth_service.py, and `require_api_key` of deps.py.
use inferspect.Prelude.{
  String, Bool, true, false, Option, none, some, List, [], ◌∷◌, str_eq, if◌then◌else◌,
}
use inferspect.Value.{Value, Fields, obj, end, field}
use inferspect.Value.Codec.{Codec}

abbrev pub KeyMap : Type 0
KeyMap = List (String × String)

-- `{str(k): str(v) for k, v in parsed.items()}`
abbrev pub client_names : Codec → Fields → KeyMap
client_names c end = []
client_names c (field k v fs) = (k, c.text v) ∷ client_names c fs

abbrev keys_of : Codec → Option Value → KeyMap
keys_of c (some (obj fs)) = client_names c fs
keys_of c _ = []

-- `ApiKeyResolver(raw_json)`: anything but a JSON object leaves the map empty.
unfoldable pub load_keys : Codec → String → KeyMap
load_keys c raw_json = if str_eq raw_json "" then [] else keys_of c (c.loads raw_json)

unfoldable pub find_client : String → KeyMap → Option String
find_client key [] = none
find_client key ((k, client) ∷ rest) = if str_eq k key then some client else find_client key rest

abbrev pub resolve_key : String → KeyMap → Option String
resolve_key key keys = if str_eq key "" then none else find_client key keys

unfoldable pub resolve : KeyMap → Option String → Option String
resolve keys none = none
resolve keys (some key) = resolve_key key keys

abbrev pub has_any_keys : KeyMap → Bool
has_any_keys [] = false
has_any_keys (k ∷ ks) = true

-- The client of a request; `none` is the 401.
unfoldable pub require_api_key : KeyMap → Option String → Option String
require_api_key keys key = if has_any_keys keys then resolve keys key else some "unknown"
