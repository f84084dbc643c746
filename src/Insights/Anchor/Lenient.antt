-- ===== src/Insights/Anchor/Lenient.antt =====
-- `_parse_messages_lenient` of apps/insights-api/insights_api/services/anchor.py: the messages of a
-- body that was cut off.
use inferspect.Prelude.{
  ℕ, zero, suc, ◌+◌, String, Bool, true, ◌||◌, Option, none, some, List, [], ◌∷◌, str_len, str_drop,
  str_find, str_eq, if◌then◌else◌,
}
use inferspect.Value.{Value, Fields, obj}
use inferspect.Insights.Anchor.{one}

abbrev bracket_from : String → ℕ → ℕ
bracket_from s idx = elim (str_find "[" (str_drop idx s)) [ none ↦ 0 | some n ↦ idx + n + 1 ]

-- Where the messages start, after the bracket of the first needle that is found.
unfoldable pub array_start : String → Option ℕ
array_start s = elim (str_find "\"messages\":[" s) [
  | some idx ↦ some (bracket_from s idx)
  | none ↦ elim (str_find "\"messages\": [" s) [
    | none ↦ none
    | some idx ↦ some (bracket_from s idx)
  ]
]

abbrev pub is_separator : String → Bool
is_separator c =
    str_eq c " " || (str_eq c "\n" || (str_eq c "\r" || (str_eq c "\t" || str_eq c ",")))

-- How many of the characters ` \n\r\t,` a text starts with.
abbrev pub separators : String → ℕ
separators String.[] = 0
separators (String.◌∷◌ c s) =
    let rest = separators s in if is_separator (one c) then suc rest else 0

-- `pos >= n or s[pos] == ']'`, of the text at `pos`.
abbrev pub closes : String → Bool
closes String.[] = true
closes (String.◌∷◌ c s) = str_eq (one c) "]"

-- Only the objects are kept.
abbrev pub keep : Value → List Fields → List Fields
keep (obj m) ms = m ∷ ms
keep _ ms = ms

-- `JSONDecoder().raw_decode(s, pos)`: the value at a position and where it ends.
module _ (raw_decode : String → ℕ → Option (Value × ℕ)) where
  unfoldable pub next : String → ℕ → Option (Value × ℕ)
  next s pos =
      let at = pos + separators (str_drop pos s) in
      if closes (str_drop at s) then none else raw_decode s at

  -- The loop; the outer `none` is a loop that has not ended when the fuel has.
  unfoldable pub parse_loop : ℕ → String → ℕ → Option (List Fields)
  parse_loop zero s pos = none
  parse_loop (suc fuel) s pos = elim (next s pos) [
    | none ↦ some []
    | some (v, end) ↦ elim (parse_loop fuel s end) [ none ↦ none | some ms ↦ some (keep v ms) ]
  ]

  unfoldable pub parse_messages_lenient : String → Option (List Fields)
  parse_messages_lenient s = elim (array_start s) [
    | none ↦ some []
    | some start ↦ parse_loop (suc (str_len s)) s start
  ]
