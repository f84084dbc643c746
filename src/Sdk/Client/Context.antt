-- ===== src/Sdk/Client/Context.antt =====
-- The ids of the request that is served: `_current_context`, `context` and `current_ctx_kwargs`
-- (packages/chatbot-sdk/chatbot_sdk/integrations/_instrument.py).
use inferspect.Prelude.{String, Option, none, some}

-- `conversation_id`, `session_id` and `user_id`; an id that is None is missing.
pub record Ids : Type 0 where
  pub conversation_id : Option String
  pub session_id : Option String
  pub user_id : Option String

abbrev pub no_ids : Ids
no_ids = record { conversation_id = none; session_id = none; user_id = none }

-- `_current_context.get() or {}`
unfoldable pub current_context : Option Ids → Ids
current_context none = no_ids
current_context (some ids) = ids

-- The block of `context`: the body sees the new ids, and the old ones are back after it, however
-- the body ends.
unfoldable pub context {ℓ} : {A : Type ℓ} → Ids → (Option Ids → A) → Option Ids → A × Option Ids
context ids body before = (body (some ids), before)

-- The ids that are not None, as keyword arguments, which are None where they are not given.
unfoldable pub current_ctx_kwargs : Option Ids → Ids
unfolding current_context
current_ctx_kwargs active = record {
  conversation_id = (current_context active).conversation_id;
  session_id = (current_context active).session_id;
  user_id = (current_context active).user_id;
}
