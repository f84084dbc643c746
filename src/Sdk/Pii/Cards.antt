-- ===== src/Sdk/Pii/Cards.antt =====
-- What `_redact_card` keeps of a text.
use inferspect.Prelude.{◌≡◌, refl, ◌∙◌, ap, ap₂, String, false, List, [], ◌∷◌, map, str_join, All}
use inferspect.Sdk.Pii.{
  Piece, kept, matched, piece_text, Cuts, substituted, sub, Patterns, luhn_ok, card_token,
  redact_card,
}

-- A match that is no card number.
abbrev pub IsNoCard : Patterns → Piece → Type 0
IsNoCard p (kept s) = Unit
IsNoCard p (matched s) = luhn_ok p (p.strip_separators s) ≡ false

token_same : (p : Patterns) (x : Piece) → IsNoCard p x → substituted (card_token p) x ≡ piece_text x
token_same p (kept s) h = refl
token_same p (matched s) h = rw h refl

tokens_same :
    (p : Patterns) (xs : List Piece)
    → All (IsNoCard p) xs
    → map (substituted (card_token p)) xs ≡ map piece_text xs
tokens_same p [] h = refl
tokens_same p (x ∷ xs) h = ap₂ (λ y ys. y ∷ ys) (token_same p x h.0) (tokens_same p xs h.1)

-- Where no match of the card pattern passes the Luhn test, `_redact_card` leaves the text as it is.
pub redact_card_keeps :
    (p : Patterns) (text : String)
    → Cuts p.card
    → All (IsNoCard p) (p.card.pieces text)
    → redact_card p text ≡ text
unfolding redact_card sub
redact_card_keeps p text cuts h = ap str_join (tokens_same p (p.card.pieces text) h) ∙ cuts text
