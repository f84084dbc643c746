-- ===== src/Sdk/Client/Chunk.antt =====
-- `_chunk_text`: the text of what a client library streams or returns.
use inferspect.Prelude.{ℕ, String, Option, none, some, List, [], ◌∷◌, str_append}
use inferspect.Value.{Value, Fields, lookup}
use inferspect.Value.Codec.{Codec}

-- An item of a content list: a text, a dict, or anything else.
pub data Part : Type 0 where
  words : String → Part
  item : Fields → Part
  opaque : Part

pub data Content : Type 0 where
  no_content : Content
  whole : String → Content
  parts : List Part → Content

-- `None`, a text, or an object with its attributes `content`, `text` and `message`, which is
-- `nothing` where it has none.
pub data Chunk : Type 0 where
  nothing : Chunk
  plain : String → Chunk
  object : Content → Option String → Chunk → Chunk

abbrev text_item : Codec → Option Value → String
text_item c none = ""
text_item c (some v) = c.text v

abbrev part_text : Codec → Part → String
part_text c (words s) = s
part_text c (item fs) = text_item c (lookup "text" fs)
part_text c opaque = ""

abbrev parts_text : Codec → List Part → String
parts_text c [] = ""
parts_text c (p ∷ ps) = str_append (part_text c p) (parts_text c ps)

unfoldable pub chunk_text : Codec → Chunk → String
chunk_text c nothing = ""
chunk_text c (plain s) = s
chunk_text c (object (whole s) t m) = s
chunk_text c (object (parts ps) t m) = parts_text c ps
chunk_text c (object no_content (some t) m) = t
chunk_text c (object no_content none m) = chunk_text c m

-- `usage_metadata`, where it is there and not empty.
pub record Usage : Type 0 where
  pub input_tokens : Option ℕ
  pub output_tokens : Option ℕ

pub record ToolCall : Type 0 where
  pub name : Option String
  pub args : Option Value

-- One streamed chunk, or a final response: its text, usage and tool calls.
pub record Message : Type 0 where
  pub body : Chunk
  pub usage : Option Usage
  pub calls : List ToolCall
