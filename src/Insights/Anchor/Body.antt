-- ===== src/Insights/Anchor/Body.antt =====
-- apps/insights-api/insights_api/services/anchor.py: from a captured body to the anchor and the hash.
use inferspect.Prelude.{ℕ, String, Option, none, some, List, [], ◌∷◌, ◌++◌, if◌then◌else◌}
use inferspect.Value.{
  Value, Items, Fields, obj, str, arr, nil, cons, end, field, keys, truthy, lookup, get,
}
use inferspect.Insights.Anchor.{Python, one, build_anchor, rolling_hash_from}
use inferspect.Insights.Anchor.Lenient.{parse_messages_lenient}

-- The standard library's `json.loads`, with `none` for a `JSONDecodeError`, and `raw_decode`.
pub record Json : Type 0 where
  pub loads : String → Option Value
  pub raw_decode : String → ℕ → Option (Value × ℕ)

abbrev listed : Items → List Value
listed nil = []
listed (cons v xs) = v ∷ listed xs

abbrev characters : String → List Value
characters String.[] = []
characters (String.◌∷◌ c s) = str (one c) ∷ characters s

abbrev key_values : List String → List Value
key_values [] = []
key_values (k ∷ ks) = str k ∷ key_values ks

-- `*v`; `none` is a `TypeError`.
abbrev spread : Value → Option (List Value)
spread (arr xs) = some (listed xs)
spread (str s) = some (characters s)
spread (obj fs) = some (key_values (keys fs))
spread _ = none

abbrev messages_value : Option Value → Value
messages_value none = arr nil
messages_value (some v) = v

abbrev list_or_empty : Value → List Value
list_or_empty (arr xs) = listed xs
list_or_empty _ = []

abbrev with_system : Value → Value → Option (List Value)
with_system system msgs =
    if truthy system
    then elim (spread msgs) [
      | none ↦ none
      | some vs ↦ some (obj (field "role" (str "system") (field "content" system end)) ∷ vs)
    ]
    else some (list_or_empty msgs)

abbrev objects : List Fields → List Value
objects [] = []
objects (m ∷ ms) = obj m ∷ objects ms

-- `parse_wire_body`; `none` is an exception.
unfoldable pub parse_wire_body : Json → String → Option (List Value)
parse_wire_body json text = elim (json.loads text) [
  | none ↦ elim (parse_messages_lenient json.raw_decode text) [
    | none ↦ none
    | some ms ↦ some (objects ms)
  ]
  | some (obj parsed) ↦
      with_system (get "system" parsed) (messages_value (lookup "messages" parsed))
  | some _ ↦ some []
]

-- The messages that have `get`; any other is an `AttributeError`.
abbrev pub dicts : List Value → Option (List Fields)
dicts [] = some []
dicts (obj m ∷ vs) = elim (dicts vs) [ none ↦ none | some ms ↦ some (m ∷ ms) ]
dicts (_ ∷ vs) = none

pub data FullAnchor : Type 0 where
  anchored : List ℕ → List ℕ → FullAnchor
  value_error : String → FullAnchor
  raised : FullAnchor

abbrev pub zeros : List ℕ
zeros = let eight = 0 ∷ 0 ∷ 0 ∷ 0 ∷ 0 ∷ 0 ∷ 0 ∷ 0 ∷ [] in eight ++ eight ++ eight ++ eight

abbrev pub pair_up : Option (List ℕ) → Option (List ℕ) → FullAnchor
pair_up (some []) (some hash) = value_error "anchor is empty (no extractable text content)"
pair_up (some (b ∷ bs)) (some hash) = anchored (b ∷ bs) hash
pair_up _ _ = raised

-- `build_full_anchor`; an exception other than `ValueError` is `raised`.
unfoldable pub anchor_of : Python → Option (List Value) → FullAnchor
anchor_of py none = raised
anchor_of py (some []) = value_error "could not parse messages from input_preview"
anchor_of py (some (v ∷ vs)) = elim (dicts (v ∷ vs)) [
  | none ↦ raised
  | some messages ↦ pair_up (build_anchor py messages) (rolling_hash_from py zeros messages)
]

unfoldable pub build_full_anchor : Python → Json → String → FullAnchor
build_full_anchor py json text = anchor_of py (parse_wire_body json text)
