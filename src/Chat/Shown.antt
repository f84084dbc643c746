-- ===== src/Chat/Shown.antt =====
-- apps/chat-service/chat_service/services/chat_service.py: the texts of what a model or a tool gives.
use inferspect.Prelude.{
  ℕ, zero, suc, ◌||◌, String, Option, none, some, List, [], ◌∷◌, leb, str_len, str_take, str_drop,
  str_append, str_join, str_find, str_startswith, if◌then◌else◌,
}

unfoldable pub truncate : String → ℕ → String
truncate s n = if leb (str_len s) n then s else str_append (str_take n s) "…"

-- An item of a content list: a text, a dict with the `str` of its `text`, or anything else.
pub data Part : Type 0 where
  part_text : String → Part
  part_dict : Option String → Part
  part_other : Part

-- A chunk of a model: `None`, an object whose content is a text or a list, a text, or anything else.
pub data Chunk : Type 0 where
  no_chunk : Chunk
  chunk_text : String → Chunk
  chunk_parts : List Part → Chunk
  bare_text : String → Chunk
  other_chunk : Chunk

abbrev part_texts : List Part → List String
part_texts [] = []
part_texts (part_text s ∷ ps) = s ∷ part_texts ps
part_texts (part_dict none ∷ ps) = "" ∷ part_texts ps
part_texts (part_dict (some s) ∷ ps) = s ∷ part_texts ps
part_texts (part_other ∷ ps) = part_texts ps

unfoldable pub content_of : Chunk → String
content_of no_chunk = ""
content_of (chunk_text s) = s
content_of (chunk_parts ps) = str_join (part_texts ps)
content_of (bare_text s) = s
content_of other_chunk = ""

-- A tool's input: `None`, a text, or a value with its `json.dumps`, unless that raises, and its `str`.
pub data ToolInput : Type 0 where
  no_input : ToolInput
  text_input : String → ToolInput
  value_input : Option String → String → ToolInput

unfoldable pub safe_args : ToolInput → String
safe_args no_input = ""
safe_args (text_input s) = truncate s 500
safe_args (value_input (some dumped) shown) = truncate dumped 500
safe_args (value_input none shown) = truncate shown 500

-- A tool's output: `None`, a text, an object whose content is a text or a list, a dict with the `str` of
-- its content, or a value with its `str`.
pub data ToolOutput : Type 0 where
  no_output : ToolOutput
  text_output : String → ToolOutput
  content_output : String → ToolOutput
  parts_output : List Part → ToolOutput
  dict_output : String → ToolOutput
  value_output : String → ToolOutput

abbrev tool_texts : List Part → List String
tool_texts [] = []
tool_texts (part_text s ∷ ps) = s ∷ tool_texts ps
tool_texts (part_dict none ∷ ps) = tool_texts ps
tool_texts (part_dict (some s) ∷ ps) = s ∷ tool_texts ps
tool_texts (part_other ∷ ps) = tool_texts ps

abbrev cuts : List String
cuts =
    "' additional_kwargs=" ∷ "\" additional_kwargs=" ∷ "' response_metadata="
    ∷ "\" response_metadata=" ∷ []

-- The text up to the first of the cuts that is found after the start.
abbrev cut_at : List String → String → String
cut_at [] literal = literal
cut_at (c ∷ cs) literal = elim (str_find c literal) [
  | none ↦ cut_at cs literal
  | some n ↦ elim n [ zero ↦ cut_at cs literal | suc m ↦ str_take (suc (suc m)) literal ]
]

abbrev or_shown : Option String → String → String
or_shown none shown = truncate shown 500
or_shown (some s) shown = truncate s 500

-- `ast.literal_eval`, with `none` for an error or a value that is no text.
unfoldable pub tool_result_text : (String → Option String) → ToolOutput → String
tool_result_text literal_eval no_output = ""
tool_result_text literal_eval (text_output s) = truncate s 500
tool_result_text literal_eval (content_output s) = truncate s 500
tool_result_text literal_eval (parts_output ps) = truncate (str_join (tool_texts ps)) 500
tool_result_text literal_eval (dict_output s) = truncate s 500
tool_result_text literal_eval (value_output s) =
    if str_startswith "content='" s || str_startswith "content=\"" s
    then or_shown (literal_eval (cut_at cuts (str_drop 8 s))) s
    else truncate s 500
