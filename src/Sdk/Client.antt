-- ===== src/Sdk/Client.antt =====
-- packages/chatbot-sdk/chatbot_sdk/client.py: spans around LLM and tool calls, and the log that each
-- submits at its end.
pub mod Chunk
pub mod Span
pub mod Context
pub mod Tool
pub mod Logger
pub mod Limits
pub mod Streaming
pub mod Responses
pub mod Traced
use inferspect.Prelude.{ℕ, ◌-◌, String, str_eq, str_len, str_take, str_append, leb, if◌then◌else◌}

abbrev pub preview_max : ℕ
preview_max = 500

-- `_truncate`
unfoldable pub truncate : String → String
truncate text =
    if str_eq text ""
    then ""
    else if leb (str_len text) preview_max
    then text
    else str_append (str_take preview_max text) "…"

-- `_ms_between`, of times in milliseconds.
unfoldable pub ms_between : ℕ → ℕ → ℕ
ms_between start finish = finish - start
