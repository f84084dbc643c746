-- ===== src/Insights/Anchor/Recovered.antt =====
-- The messages of a body that was cut off.
use inferspect.Prelude.{
  ℕ, ◌+◌, ◌≡◌, String, false, Option, none, some, List, [], ◌∷◌, str_len, str_append,
}
use inferspect.Value.{Value, Fields, obj}
use inferspect.Insights.Anchor.Lenient.{separators, closes}

-- What is written after the bracket: messages, with a gap before each, and what is left of the text.
abbrev pub written : (Fields → String) → String → List Fields → String → String
written encode gap [] tail = str_append gap tail
written encode gap (m ∷ ms) tail =
    str_append gap (str_append (encode m) (written encode gap ms tail))

module _ (raw_decode : String → ℕ → Option (Value × ℕ)) where
  -- An object that is complete is decoded, wherever it stands.
  abbrev pub Decodes : (Fields → String) → Fields → Type 0
  Decodes encode m =
      (a b : String)
      → (raw_decode (str_append a (str_append (encode m) b)) (str_len a)
          ≡ some (obj m, str_len a + str_len (encode m)))
        × (separators (str_append (encode m) b) ≡ 0)
        × (closes (str_append (encode m) b) ≡ false)

  -- The end of a text: nothing, a closing bracket, or a value that is cut off.
  abbrev pub IsTail : String → Type 0
  IsTail tail =
      (separators tail ≡ 0)
      × ((a : String) → closes tail ≡ false → raw_decode (str_append a tail) (str_len a) ≡ none)
