-- ===== src/Insights/Anchor.antt =====
-- apps/insights-api/insights_api/services/anchor.py: the anchor and the rolling hash of a captured
-- conversation.
pub mod Lenient
pub mod Body
pub mod Ending
pub mod Recovered
pub mod Filled
use Prim.Native.Char.{Char}
use inferspect.Prelude.{
  ℕ, String, Bool, true, false, not, ◌||◌, Option, none, some, List, [], ◌∷◌, ◌++◌, length, take,
  leb, str_eq, str_append, if◌then◌else◌,
}
use inferspect.Value.{Value, Items, Fields, str, arr, obj, nil, cons, truthy, lookup, get}

-- The standard library: `str.encode`, `str.lower`, `str.isspace`, `str.strip`, `json.dumps` with
-- compact separators, `hashlib.sha256` and `struct.pack("<I", n)`.
pub record Python : Type 0 where
  pub utf8 : String → List ℕ
  pub lower : String → String
  pub is_space : Char → Bool
  pub strip : String → String
  pub compact : Value → String
  pub sha256 : List ℕ → List ℕ
  pub pack : ℕ → List ℕ

abbrev pub anchor_max_bytes : ℕ
anchor_max_bytes = 128

abbrev pub min_anchor_bytes : ℕ
min_anchor_bytes = 16

abbrev pub one : Char → String
one c = String.◌∷◌ c ""

module _ (py : Python) where
  abbrev pub normalize_role : String → String
  normalize_role String.[] = ""
  normalize_role (String.◌∷◌ c s) =
      let rest = normalize_role s in
      if str_eq (one c) " " || (str_eq (one c) "\t" || (str_eq (one c) "\r" || str_eq (one c) "\n"))
      then rest
      else str_append (py.lower (one c)) rest

  -- The loop of `normalize_content`; `last` is `last_space`.
  abbrev pub collapse : Bool → String → String
  collapse last String.[] = ""
  collapse last (String.◌∷◌ c s) =
      let spaced = collapse true s in
      let plain = collapse false s in
      if py.is_space c
      then (if last then spaced else str_append " " spaced)
      else str_append (one c) plain

  abbrev pub normalize_content : String → String
  normalize_content s = py.strip (collapse true s)

  -- `block.get("text", "")` of the text blocks.
  abbrev block_text : Option Value → Value
  block_text none = str ""
  block_text (some v) = v

  abbrev is_text : Value → Bool
  is_text (str s) = str_eq s "text"
  is_text _ = false

  abbrev pub text_blocks : Items → List Value
  text_blocks nil = []
  text_blocks (cons (obj block) xs) =
      let rest = text_blocks xs in
      if is_text (get "type" block) then block_text (lookup "text" block) ∷ rest else rest
  text_blocks (cons _ xs) = text_blocks xs

  -- `"".join(parts)`; `none` is its `TypeError`.
  abbrev pub join_parts : List Value → Option String
  join_parts [] = some ""
  join_parts (str s ∷ vs) = elim (join_parts vs) [ none ↦ none | some t ↦ some (str_append s t) ]
  join_parts (_ ∷ vs) = none

  abbrev joined : Items → List Value → Option String
  joined xs [] = some (py.compact (arr xs))
  joined xs (v ∷ vs) = join_parts (v ∷ vs)

  -- `none` is an exception.
  unfoldable pub extract_message_text : Value → Option String
  extract_message_text (str s) = some s
  extract_message_text (arr xs) = joined xs (text_blocks xs)
  extract_message_text v = some (py.compact v)

  -- `m.get(key, "")`
  abbrev pub get_or_text : String → Fields → Value
  get_or_text k m = elim (lookup k m) [ none ↦ str "" | some v ↦ v ]

  unfoldable pub roll_one : List ℕ → String → String → List ℕ
  roll_one prev role content =
      let role_b = py.utf8 (normalize_role role) in
      let content_b = py.utf8 (normalize_content content) in
      py.sha256
        (prev ++ 1 ∷ (py.pack (length role_b) ++ role_b ++ py.pack (length content_b) ++ content_b))

  -- The text of the role in a hash; any other value is left to an exception.
  abbrev pub role_text : Value → Option String
  role_text (str s) = some s
  role_text _ = none

  abbrev pub next_hash : List ℕ → Option String → Option String → Option (List ℕ)
  next_hash h (some role) (some content) = some (roll_one h role content)
  next_hash h _ _ = none

  unfoldable pub rolling_hash_from : List ℕ → List Fields → Option (List ℕ)
  rolling_hash_from h [] = some h
  rolling_hash_from h (m ∷ ms) =
      elim (next_hash h (role_text (get_or_text "role" m))
        (extract_message_text (get_or_text "content" m))) [
          | none ↦ none
          | some h' ↦ rolling_hash_from h' ms
        ]

  -- `_pad`
  unfoldable pub pad : String → List ℕ
  pad text =
      let raw = py.utf8 text in
      if leb min_anchor_bytes (length raw)
      then take anchor_max_bytes raw
      else take anchor_max_bytes (py.utf8 (str_append "\"content\":\"" (str_append text "\"")))

  -- `(m.get("role") or "").lower()`; `none` is the `AttributeError` of any other value.
  abbrev pub lower_role : Value → Option String
  lower_role (str s) = some (py.lower s)
  lower_role v = if truthy v then none else some (py.lower "")

  abbrev with_message : Option String → Option (Option String) → Option (Option String)
  with_message none rest = none
  with_message (some text) rest = if str_eq text "" then rest else some (some text)

  -- The first text of a message whose role passes a test; the outer `none` is an exception.
  unfoldable pub first_text : (String → Bool) → List Fields → Option (Option String)
  first_text ok [] = some none
  first_text ok (m ∷ ms) =
      let rest = first_text ok ms in
      elim (lower_role (get "role" m)) [
        | none ↦ none
        | some role ↦
            if ok role
            then with_message (extract_message_text (get_or_text "content" m)) rest
            else rest
      ]

  abbrev pub padded_or : Option (List ℕ) → Option (Option String) → Option (List ℕ)
  padded_or later none = none
  padded_or later (some none) = later
  padded_or later (some (some text)) = some (pad text)

  -- The second loop runs only if the first finds no text.
  unfoldable pub build_anchor : List Fields → Option (List ℕ)
  build_anchor messages =
      padded_or (padded_or (some []) (first_text (λ role. not (str_eq role "system")) messages))
        (first_text (λ role. str_eq role "user") messages)
