-- ===== src/Sdk/Sync.antt =====
-- packages/chatbot-sdk/chatbot_sdk/sync.py: `SyncInferenceLogger`, which drives the async logger from a
-- loop in a thread of its own. The async logger is a parameter, with what its methods do to it.
pub mod Blocks
use inferspect.Prelude.{
  String, Bool, true, false, Option, none, some, List, [], ◌∷◌, str_eq, if◌then◌else◌,
}
use inferspect.Sdk.Client.Context.{Ids}
use inferspect.Sdk.Client.Logger.{Exit, returned}

-- The variables of `from_env`, and what the constructor is called with.
pub record Environment : Type 0 where
  pub url : Option String
  pub key : Option String
  pub service : Option String

pub record Settings : Type 0 where
  pub ingestion_url : String
  pub api_key : Option String
  pub service : String

abbrev service_or_app : Option String → String
service_or_app none = "app"
service_or_app (some service) = service

-- `from_env` of both loggers; `none` is the ValueError.
unfoldable pub from_env : Environment → Option Settings
from_env env = elim env.url [
  | none ↦ none
  | some url ↦
      if str_eq url ""
      then none
      else some
          (record { ingestion_url = url; api_key = env.key; service = service_or_app env.service })
]

-- What a call ends with; `assertion` is that of `_submit_coro`, without a loop.
pub data Ended : Type 0 where
  fine assertion : Ended
  raised : Exit → Ended

-- The async logger: its `start` and `close`, which may raise, and the exit of a block of kind K.
pub record AsyncLogger (A K : Type 0) : Type 0 where
  pub start : A → Option Exit × A
  pub close : A → Option Exit × A
  pub exit_block : K → Exit → A → A

pub record SyncLogger (A : Type 0) : Type 0 where
  pub loop : Bool
  pub thread : Bool
  pub started : Bool
  pub inner : A

abbrev pub ended_by : Option Exit → Ended
ended_by none = fine
ended_by (some e) = raised e

abbrev pub ended_block : Exit → Ended
ended_block returned = fine
ended_block e = raised e

abbrev pub ended_or : Ended → Exit → Ended
ended_or fine exit = ended_block exit
ended_or e exit = e

module _ {A K : Type 0} (a : AsyncLogger A K) where
  unfoldable pub init : A → SyncLogger A
  init inner = record { loop = false; thread = false; started = false; inner = inner }

  abbrev pub after_start : Option Exit × A → SyncLogger A → Ended × SyncLogger A
  after_start (none, inner) s =
      (fine, record s { loop = true; thread = true; started = true; inner = inner })
  after_start (some e, inner) s = (raised e, record s { loop = true; thread = true; inner = inner })

  unfoldable pub start : SyncLogger A → Ended × SyncLogger A
  start s = if s.started then (fine, s) else after_start (a.start s.inner) s

  abbrev after_close : Option Exit × A → SyncLogger A → Ended × SyncLogger A
  after_close (r, inner) s =
      (ended_by r, record s { loop = false; thread = false; started = false; inner = inner })

  unfoldable pub close : SyncLogger A → Ended × SyncLogger A
  close s = if s.started then after_close (a.close s.inner) s else (fine, s)

  -- The block of `inference` or `tool_call`: what its body does to the logger, and how it is left.
  abbrev leave : K → Exit → SyncLogger A → Ended × SyncLogger A
  leave k exit s =
      if s.loop
      then (ended_block exit, record s { inner = a.exit_block k exit s.inner })
      else (assertion, s)

  unfoldable pub block :
      K → (SyncLogger A → Exit × SyncLogger A) → SyncLogger A → Ended × SyncLogger A
  block k body s = if s.loop then (let (exit, s1) = body s in leave k exit s1) else (assertion, s)

  abbrev pub then_close : Exit → Ended × SyncLogger A → Ended × SyncLogger A
  then_close exit (e, s) = (ended_or e exit, s)

  abbrev pub after_enter :
      (SyncLogger A → Exit × SyncLogger A) → Ended × SyncLogger A → Ended × SyncLogger A
  after_enter body (fine, s) = let (exit, s1) = body s in then_close exit (close s1)
  after_enter body (e, s) = (e, s)

  -- `with logger:`, whose body does not start where `start` raises.
  unfoldable pub with_logger :
      (SyncLogger A → Exit × SyncLogger A) → SyncLogger A → Ended × SyncLogger A
  unfolding start close
  with_logger body s = after_enter body (start s)
