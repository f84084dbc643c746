-- ===== src/Chat/Models.antt =====
-- apps/chat-service/chat_service/llm: which provider a model belongs to.
use inferspect.Prelude.{String, Bool, ◌||◌, str_startswith, str_drop, if◌then◌else◌}

unfoldable pub is_raw_model : String → Bool
is_raw_model model = str_startswith "raw-openai/" model || str_startswith "raw-anthropic/" model

unfoldable pub provider_for_raw : String → String
provider_for_raw model =
    if str_startswith "raw-openai/" model
    then "openai"
    else if str_startswith "raw-anthropic/" model
    then "anthropic"
    else "unknown"

unfoldable pub strip_raw_prefix : String → String
strip_raw_prefix model =
    if str_startswith "raw-openai/" model
    then str_drop 11 model
    else if str_startswith "raw-anthropic/" model
    then str_drop 14 model
    else model

abbrev provider_of : String → String
provider_of lower =
    if str_startswith "gemini" lower || str_startswith "google" lower
    then "google"
    else if str_startswith "gpt" lower
        || (str_startswith "o1" lower || str_startswith "openai" lower)
    then "openai"
    else if str_startswith "claude" lower || str_startswith "anthropic" lower
    then "anthropic"
    else "unknown"

-- The argument is `str.lower`.
unfoldable pub provider_for : (String → String) → String → String
provider_for lower model_name = provider_of (lower model_name)
