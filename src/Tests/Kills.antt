-- ===== src/Tests/Kills.antt =====
-- A session whose captured body was cut off, killed on its host.
use inferspect.Prelude.{
  ℕ, ◌+◌, ◌≡◌, inl, inr, arith, String, false, Option, none, some, List, [], ◌∷◌, str_drop,
  str_append, str_startswith, Bool-cases, if◌then◌else◌,
}
use inferspect.Value.{Value, Fields, null, obj, str, end, field}
use inferspect.Value.Codec.{Codec}
use inferspect.Ingestion.Control.Service.{Stamp}
use inferspect.Ingestion.Http.Auth.{KeyMap}
use inferspect.Insights.Anchor.{Python}
use inferspect.Insights.Anchor.Lenient.{parse_messages_lenient}
use inferspect.Insights.Anchor.Ending.{Advances, parse_messages_lenient_ends}
use inferspect.Insights.Anchor.Recovered.{written}
use inferspect.Insights.Anchor.Body.{Json}
use inferspect.Insights.Kills.{Environment, json_body, Column, SessionRow, kill_session}
use inferspect.Insights.Kills.Audit.{IsAudited, kill_session-IsAudited}
use inferspect.Tests.Anchors.{python}
use inferspect.Tests.Memory.{two_texts}

abbrev pub hello : Fields
hello = field "role" (str "user") (field "content" (str "Hello, are you there?") end)

-- A decoder of one object, which is written `{m}`.
abbrev pub raw_decode : String → ℕ → Option (Value × ℕ)
raw_decode s pos = if str_startswith "{m}" (str_drop pos s) then some (obj hello, pos + 3) else none

raw_decode-Advances : Advances raw_decode
raw_decode-Advances s pos v stop h = elim (Bool-cases (str_startswith "{m}" (str_drop pos s))) [
  | inl e ↦ ground arith
  | inr e ↦ ground arith
]

abbrev pub head : String
head = "{\"model\":\"gpt\",\"messages\":["

-- Two messages, and a third that is cut off.
abbrev pub body : String
body = str_append head (written (λ m. "{m}") ", " (hello ∷ hello ∷ []) "{m")

parse_messages_lenient_ends_example :
    (ms : List Fields) × (parse_messages_lenient raw_decode body ≡ some ms)
parse_messages_lenient_ends_example =
    parse_messages_lenient_ends raw_decode raw_decode-Advances body

abbrev pub digesting : Python
digesting = record python { sha256 = λ b. 7 ∷ b }

abbrev pub json : Json
json = record { loads = λ s. none; raw_decode = raw_decode }

abbrev pub base64 : List ℕ → String
base64 [] = ""
base64 (b ∷ bs) = "YQ=="

abbrev pub environment : Environment
environment = record {
  ingestion_control_url = "http://ingestion:8000/v1/control";
  sdk_api_key = some "k1";
  post = λ url key payload. json_body null;
  insert_event = λ event. false;
  rstrip_slash = λ s. s;
  b64 = base64;
  decode = λ bs. none;
}

abbrev pub row : SessionRow
row = record {
  host_id = Column.text "h";
  fingerprint = Column.text "f1";
  input_preview = Column.text body;
}

kill_session-IsAudited_example :
    IsAudited environment "op"
      (kill_session environment digesting json (some row) "op" none "abuse" 60)
kill_session-IsAudited_example =
    kill_session-IsAudited environment digesting json (some row) "op" none "abuse" 60

abbrev keys : KeyMap
keys = ("k1", "acme") ∷ []

abbrev codec : Codec
codec = two_texts end end

abbrev stamp : Stamp
stamp = record { issued_at = "now"; command_id = "c1" }
