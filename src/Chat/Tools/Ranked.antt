-- ===== src/Chat/Tools/Ranked.antt =====
-- Which documents a search shows.
use inferspect.Prelude.{
  ℕ, zero, suc, ◌≤◌, ◌<◌, ◌≡◌, arith, String, true, false, inl, inr, Bool-cases, List, [], ◌∷◌, All,
  take, drop, length, length-take-le, ltb,
}
use native.Mathlib.Nat.{le_trans}
use inferspect.Insights.Anomaly.{sort_by}
use inferspect.Insights.Anomaly.Sorting.{
  sort_by-All, IsSortedBy, sort_by-IsSortedBy, take-IsSortedBy, take-drop-IsSortedBy,
}
use inferspect.Chat.Tools.{
  Words, Doc, Scored, score_of, tokenize, scored, ranks_before, at_least_one, top_documents,
}

ltb→lt : (a b : ℕ) → ltb a b ≡ true → a < b
ltb→lt a b h = ground arith

abbrev pub NotBelow : Scored → Scored → Type 0
NotBelow a b = b.score ≤ a.score

abbrev pub IsFound : Scored → Type 0
IsFound s = 0 < s.score

module _ (w : Words) where
  ahead : (a b : Scored) → ranks_before w a b ≡ true → NotBelow a b
  ahead a b h = ground arith

  behind : (a b : Scored) → ranks_before w a b ≡ false → NotBelow b a
  behind a b h = ground arith

  scored-IsFound : (tokens : List String) (docs : List Doc) → All IsFound (scored w tokens docs)
  unfolding scored
  scored-IsFound tokens [] = tt
  scored-IsFound tokens (d ∷ ds) =
      let score = score_of w tokens (w.lower d.content) in
      elim (Bool-cases (ltb 0 score)) [
        | inl found ↦ rw found (ltb→lt 0 score found, scored-IsFound tokens ds)
        | inr missing ↦ rw missing (scored-IsFound tokens ds)
      ]

take-All {ℓ κ} : {A : Type ℓ} (P : A → Type κ) (n : ℕ) (xs : List A) → All P xs → All P (take n xs)
take-All P zero xs h = tt
take-All P (suc n) [] h = tt
take-All P (suc n) (x ∷ xs) h = (h.0, take-All P n xs h.1)

-- A search shows at most `max(1, k)` documents. Each has a positive score, which is at least that
-- of each document with a score that follows it or is left out.
pub top_documents-IsRanked :
    (w : Words) (docs : List Doc) (query : String) (k : ℕ)
    → let shown = top_documents w docs query k in
      let all = sort_by (ranks_before w) (scored w (tokenize w query) docs) in
      (length shown ≤ at_least_one w k)
      × All IsFound shown
      × IsSortedBy NotBelow shown
      × All (λ s. All (NotBelow s) (drop (at_least_one w k) all)) shown
unfolding top_documents
top_documents-IsRanked w docs query k =
    let some_found = scored w (tokenize w query) docs in
    let all = sort_by (ranks_before w) some_found in
    let ranked : IsSortedBy NotBelow all =
      sort_by-IsSortedBy (ranks_before w) NotBelow (λ a b c h l. le_trans l h) (ahead w) (behind w)
        some_found in
    (
      length-take-le (at_least_one w k) all,
      take-All IsFound (at_least_one w k) all (
          sort_by-All (ranks_before w) IsFound some_found
            (scored-IsFound w (tokenize w query) docs)),
      take-IsSortedBy NotBelow (at_least_one w k) all ranked,
      take-drop-IsSortedBy NotBelow (at_least_one w k) all ranked,
    )
