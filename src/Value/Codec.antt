-- ===== src/Value/Codec.antt =====
-- The standard library's `json` and `str`, as far as the services rely on them.
use inferspect.Value.Data.{Value}
use inferspect.Prelude.{String, Option}

-- `loads` gives `none` where `json.loads` raises. `dumps` is `json.dumps(v, default=str)`, and
-- `text` is `str(v)`.
pub record Codec : Type 0 where
  pub dumps : Value → String
  pub loads : String → Option Value
  pub text : Value → String
