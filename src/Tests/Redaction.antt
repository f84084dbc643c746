-- ===== src/Tests/Redaction.antt =====
-- The SDK's redaction, with patterns that find one address.
use inferspect.Prelude.{◌≡◌, true, none, some, List, [], ◌∷◌, str_eq, if◌then◌else◌}
use inferspect.Value.{Value, Fields, str, arr, obj, nil, cons, end, field, lookup}
use inferspect.Sdk.Pii.{kept, matched, Regex, Patterns, luhn_ok, redact_value}
use inferspect.Sdk.Pii.Luhn.{luhn_ok_correct}
use inferspect.Sdk.Pii.Walk.{Step, key, index}
use inferspect.Sdk.Structlog.{Surroundings, Processor, log_of}
use inferspect.Sdk.Structlog.Shipping.{attributes_shipped}

abbrev nothing : Regex
nothing = record { pieces = λ s. kept s ∷ [] }

abbrev patterns : Patterns
patterns = record {
  email = record { pieces = λ s. if str_eq s "me@x.org" then matched s ∷ [] else kept s ∷ [] };
  phone_e164 = nothing;
  phone_na = nothing;
  card = nothing;
  ssn = nothing;
  iban = nothing;
  ipv4 = nothing;
  ipv6 = nothing;
  aws_key = nothing;
  strip_separators = λ s. s;
  is_digits = λ s. true;
}

luhn_ok_correct_example : luhn_ok patterns "4111111111111111" ≡ true
luhn_ok_correct_example = luhn_ok_correct patterns "4111111111111111"

-- An address in a list.
abbrev users : Value
users = obj (field "users" (arr (cons (str "Ann") (cons (str "me@x.org") nil))) end)

abbrev second_user : List Step
second_user = key "users" ∷ index 1 ∷ []

abbrev surroundings : Surroundings
surroundings = record { upper = λ s. s; text = λ v. "text"; parse_ts = λ v. 0 }

abbrev processor : Processor
processor = record { service = "api"; min_level = 20; pii_redact = true; pii_recognizers = none }

abbrev event : Fields
event = field "event" (str "login") (field "mail" (str "me@x.org") end)

mail_redacted :
    lookup "mail" (log_of patterns surroundings processor "INFO" event).attributes
    ≡ some (redact_value patterns none (str "me@x.org"))
unfolding lookup
mail_redacted = attributes_shipped patterns surroundings processor "INFO" "mail" event
