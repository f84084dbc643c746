-- ===== src/Tests/Anchors.antt =====
-- Anchors of short messages, over a Python whose texts are ASCII.
use inferspect.Prelude.{ℕ, String, false, List, [], ◌∷◌}
use inferspect.Value.{Fields, str, end, field}
use inferspect.Insights.Anchor.{Python}

-- Each character is one byte.
abbrev ascii : String → List ℕ
ascii String.[] = []
ascii (String.◌∷◌ c s) = 97 ∷ ascii s

abbrev pub python : Python
python = record {
  utf8 = ascii;
  lower = λ s. s;
  is_space = λ c. false;
  strip = λ s. s;
  compact = λ v. "{}";
  sha256 = λ b. b;
  pack = λ n. n ∷ [];
}

abbrev conversation : List Fields
conversation =
    field "role" (str "system") (field "content" (str "Be brief.") end)
    ∷ field "role" (str "user") (field "content" (str "hey") end)
    ∷ []
