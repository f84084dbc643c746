-- ===== src/Chat/Tools.antt =====
-- apps/chat-service/chat_service/llm/tools.py: the search of the knowledge base.
pub mod Ranked
use inferspect.Prelude.{
  ℕ, ◌+◌, String, Bool, ◌||◌, ◌&&◌, ◌==◌, List, [], ◌∷◌, take, str_append, ltb, leb, if◌then◌else◌,
}
use inferspect.Insights.Anomaly.{sort_by}

-- `re` and `str`: the words of a lowered text, the times that a word stands in a text between word
-- boundaries, `lower`, `strip` and the order of texts.
pub record Words : Type 0 where
  pub words : String → List String
  pub occurrences : String → String → ℕ
  pub lower : String → String
  pub strip : String → String
  pub lt : String → String → Bool

pub record Doc : Type 0 where
  pub name : String
  pub content : String

pub record Scored : Type 0 where
  pub score : ℕ
  pub doc : Doc

abbrev nothing_found : String
nothing_found = "No matching documents found."

module _ (w : Words) where
  -- `_tokenize`
  abbrev pub tokenize : String → List String
  tokenize text = w.words (w.lower text)

  abbrev pub score_of : List String → String → ℕ
  score_of [] haystack = 0
  score_of (token ∷ tokens) haystack = w.occurrences token haystack + score_of tokens haystack

  -- The documents with a score, in the order of the directory.
  unfoldable pub scored : List String → List Doc → List Scored
  scored tokens [] = []
  scored tokens (d ∷ ds) =
      let later = scored tokens ds in
      let score = score_of tokens (w.lower d.content) in
      if ltb 0 score then record { score = score; doc = d } ∷ later else later

  -- The key `(-score, name)`.
  abbrev pub ranks_before : Scored → Scored → Bool
  ranks_before a b = ltb b.score a.score || (a.score == b.score && w.lt a.doc.name b.doc.name)

  -- `max(1, k)`, where a negative `k` stands as 0.
  abbrev pub at_least_one : ℕ → ℕ
  at_least_one k = if leb 1 k then k else 1

  -- `top`: nothing where there are no words.
  unfoldable pub top_documents : List Doc → String → ℕ → List Scored
  unfolding scored
  top_documents docs query k =
      take (at_least_one k) (sort_by ranks_before (scored (tokenize query) docs))

  abbrev shown : Scored → String
  shown s = str_append "[" (str_append s.doc.name (str_append "]\n" (w.strip s.doc.content)))

  abbrev joined : Scored → List Scored → String
  joined s [] = shown s
  joined s (t ∷ ts) = str_append (shown s) (str_append "\n\n" (joined t ts))

  abbrev answer : List Scored → String
  answer [] = nothing_found
  answer (s ∷ ss) = joined s ss

  unfoldable pub search_knowledge_base : List Doc → String → ℕ → String
  unfolding top_documents
  search_knowledge_base docs query k = answer (top_documents docs query k)
