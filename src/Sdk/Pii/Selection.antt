-- ===== src/Sdk/Pii/Selection.antt =====
-- Which recognizers run, and in which order.
use inferspect.Prelude.{◌≡◌, refl, String, Option, List, [], ◌∷◌, if◌then◌else◌}
use inferspect.Sdk.Pii.{Patterns, recognizers, is_named, names_of, apply_named, redact_text}

apply_named-cong :
    (p : Patterns) (rs : List (String × (String → String))) (names names' : List String)
    (text : String)
    → ((name : String) → is_named p name names ≡ is_named p name names')
    → apply_named p rs names text ≡ apply_named p rs names' text
unfolding apply_named
apply_named-cong p [] names names' text same = refl
apply_named-cong p ((name, redact) ∷ rest) names names' text same = rw (same name) (
    apply_named-cong p rest names names' (if is_named p name names' then redact text else text)
      same)

-- The result of `redact_text` depends only on which recognizers are named, not on their order or
-- on how often they are named.
pub redact_text_selects :
    (p : Patterns) (chosen chosen' : Option (List String)) (text : String)
    → ((name : String) → is_named p name (names_of p chosen) ≡ is_named p name (names_of p chosen'))
    → redact_text p chosen text ≡ redact_text p chosen' text
unfolding redact_text
redact_text_selects p chosen chosen' text same =
    rw (apply_named-cong p (recognizers p) (names_of p chosen) (names_of p chosen') text same) refl
