-- ===== src/Sdk/Pii/Walk.antt =====
-- How `_redact_value` walks a value, against the places of the value.
use inferspect.Prelude.{ℕ, zero, suc, ◌≡◌, refl, String, Option, none, some, List, [], ◌∷◌, arith}
use inferspect.Value.{Value, Items, Fields, str, arr, obj, nil, cons, end, field, lookup}
use inferspect.Sdk.Pii.Expected.{expected_text}
use inferspect.Sdk.Pii.{Patterns, redact_value, redact_dict}

-- A step into a dict or a list.
pub data Step : Type 0 where
  key : String → Step
  index : ℕ → Step

abbrev pub item_at : ℕ → Items → Option Value
item_at n nil = none
item_at zero (cons v xs) = some v
item_at (suc n) (cons v xs) = item_at n xs

-- One step from a value.
abbrev pub child : Step → Value → Option Value
child (key k) (obj fs) = lookup k fs
child (index n) (arr xs) = item_at n xs
child _ _ = none

abbrev pub through {ℓ} : {A : Type ℓ} → Option Value → (Value → Option A) → Option A
through none f = none
through (some v) f = f v

-- The value at a path of steps.
unfoldable pub value_at : List Step → Value → Option Value
value_at [] v = some v
value_at (s ∷ path) v = through (child s v) (value_at path)

-- What a place shows: nothing, a text, another leaf, or that a dict or a list stands there.
pub data Shown : Type 0 where
  missing a_dict a_list : Shown
  a_text : String → Shown
  a_leaf : Value → Shown

abbrev pub shown : Option Value → Shown
shown none = missing
shown (some (str s)) = a_text s
shown (some (obj fs)) = a_dict
shown (some (arr xs)) = a_list
shown (some v) = a_leaf v

module _ (p : Patterns) (chosen : Option (List String)) where
  abbrev pub redacted : Option Value → Option Value
  redacted none = none
  redacted (some v) = some (redact_value p chosen v)

  pub lookup-redact_dict :
      (k : String) (fs : Fields) → lookup k (redact_dict p chosen fs) ≡ redacted (lookup k fs)
  unfolding redact_dict lookup
  lookup-redact_dict k end = refl
  lookup-redact_dict k (field j v fs) = ground (arith, lookup-redact_dict k fs)

  -- A text is redacted, and all else is as it was.
  abbrev pub wiped : Shown → Shown
  wiped (a_text s) = a_text (expected_text p chosen s)
  wiped place = place
