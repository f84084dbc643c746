-- ===== src/Sdk/Pii.antt =====
-- packages/chatbot-sdk/chatbot_sdk/pii.py: redaction in the SDK. The regular expressions are `re`'s.
pub mod Luhn
pub mod Cards
pub mod Selection
pub mod Expected
pub mod Walk
use Prim.Native.Char.{Char, code}
use inferspect.Prelude.{
  ℕ, zero, suc, ◌+◌, ◌-◌, ◌*◌, ◌%◌, ◌≡◌, String, Bool, true, false, not, ◌&&◌, ◌||◌, Option, none,
  some, List, [], ◌∷◌, map, length, str_eq, str_len, str_join, leb, ltb, ◌==◌, if◌then◌else◌,
}
use inferspect.Value.{
  Value, Items, Fields, null, bool, int, float, str, arr, obj, nil, cons, end, field,
}

-- How a pattern cuts a text: what stands between its matches, and the matches.
pub data Piece : Type 0 where
  kept : String → Piece
  matched : String → Piece

abbrev pub piece_text : Piece → String
piece_text (kept s) = s
piece_text (matched s) = s

-- A compiled regular expression, by the pieces that it cuts a text into.
pub record Regex : Type 0 where
  pub pieces : String → List Piece

-- The pieces of a text make up the text.
abbrev pub Cuts : Regex → Type 0
Cuts r = (text : String) → str_join (map piece_text (r.pieces text)) ≡ text

abbrev pub substituted : (String → String) → Piece → String
substituted f (kept s) = s
substituted f (matched s) = f s

-- `pattern.sub(f, text)`
unfoldable pub sub : Regex → (String → String) → String → String
sub r f text = str_join (map (substituted f) (r.pieces text))

-- The patterns of the module, `re.sub(r"[ \-]", "", s)` and `str.isdigit`.
pub record Patterns : Type 0 where
  pub email : Regex
  pub phone_e164 : Regex
  pub phone_na : Regex
  pub card : Regex
  pub ssn : Regex
  pub iban : Regex
  pub ipv4 : Regex
  pub ipv6 : Regex
  pub aws_key : Regex
  pub strip_separators : String → String
  pub is_digits : String → Bool

-- `[ord(ch) - 48 for ch in digits]`
abbrev pub digit_values : String → List ℕ
digit_values String.[] = []
digit_values (String.◌∷◌ ch s) = (code ch - 48) ∷ digit_values s

-- `n *= 2`, less 9 above 9.
abbrev pub doubled : ℕ → ℕ
doubled n = if ltb 9 (n * 2) then n * 2 - 9 else n * 2

-- The loop of `_luhn_ok`, at index i.
unfoldable pub luhn_from : ℕ → ℕ → ℕ → List ℕ → ℕ
luhn_from parity i total [] = total
luhn_from parity i total (n ∷ ns) =
    luhn_from parity (suc i) (total + (if (i % 2) == parity then doubled n else n)) ns

module _ (p : Patterns) where
  -- `_luhn_ok`
  unfoldable pub luhn_ok : String → Bool
  luhn_ok digits =
      if not (p.is_digits digits) || not (leb 13 (str_len digits) && leb (str_len digits) 19)
      then false
      else (luhn_from (str_len digits % 2) 0 0 (digit_values digits) % 10) == 0

  abbrev pub card_token : String → String
  card_token raw = if luhn_ok (p.strip_separators raw) then "<CREDIT_CARD>" else raw

  unfoldable pub redact_card : String → String
  redact_card text = sub p.card card_token text

  abbrev pub iban_token : String → String
  iban_token raw = if leb 15 (str_len raw) && leb (str_len raw) 34 then "<IBAN_CODE>" else raw

  unfoldable pub redact_iban : String → String
  redact_iban text = sub p.iban iban_token text

  -- `_RECOGNIZERS`, in its order.
  abbrev pub recognizers : List (String × (String → String))
  recognizers =
      ("CREDIT_CARD", redact_card)
      ∷ ("US_SSN", λ t. sub p.ssn (λ m. "<US_SSN>") t)
      ∷ ("IBAN_CODE", redact_iban)
      ∷ ("AWS_ACCESS_KEY", λ t. sub p.aws_key (λ m. "<AWS_ACCESS_KEY>") t)
      ∷ ("EMAIL_ADDRESS", λ t. sub p.email (λ m. "<EMAIL_ADDRESS>") t)
      ∷ (
        "PHONE_NUMBER",
        λ t. sub p.phone_na (λ m. "<PHONE_NUMBER>") (sub p.phone_e164 (λ m. "<PHONE_NUMBER>") t),
      )
      ∷ ("IPV4", λ t. sub p.ipv4 (λ m. "<IPV4>") t)
      ∷ ("IPV6", λ t. sub p.ipv6 (λ m. "<IPV6>") t)
      ∷ []

  abbrev pub is_named : String → List String → Bool
  is_named name [] = false
  is_named name (n ∷ ns) = str_eq name n || is_named name ns

  abbrev pub default_recognizers : List String
  default_recognizers =
      "EMAIL_ADDRESS" ∷ "PHONE_NUMBER" ∷ "CREDIT_CARD" ∷ "US_SSN" ∷ "IBAN_CODE" ∷ "IPV4"
      ∷ "AWS_ACCESS_KEY" ∷ []

  abbrev pub names_of : Option (List String) → List String
  names_of none = default_recognizers
  names_of (some names) = names

  -- The loop over `_RECOGNIZERS`.
  unfoldable pub apply_named : List (String × (String → String)) → List String → String → String
  apply_named [] names text = text
  apply_named ((name, redact) ∷ rest) names text =
      apply_named rest names (if is_named name names then redact text else text)

  unfoldable pub redact_text : Option (List String) → String → String
  redact_text chosen text =
      if str_eq text "" then text else apply_named recognizers (names_of chosen) text

  -- `_redact_value` and `redact_dict`.
  unfoldable mutual
    pub redact_value : Option (List String) → Value → Value
    redact_value chosen (str s) = str (redact_text chosen s)
    redact_value chosen (obj fs) = obj (redact_dict chosen fs)
    redact_value chosen (arr xs) = arr (redact_items chosen xs)
    redact_value chosen null = null
    redact_value chosen (bool b) = bool b
    redact_value chosen (int n) = int n
    redact_value chosen (float r) = float r

    pub redact_dict : Option (List String) → Fields → Fields
    redact_dict chosen end = end
    redact_dict chosen (field k v fs) = field k (redact_value chosen v) (redact_dict chosen fs)

    pub redact_items : Option (List String) → Items → Items
    redact_items chosen nil = nil
    redact_items chosen (cons v xs) = cons (redact_value chosen v) (redact_items chosen xs)

  -- What a logger does to its previews: `if self._sdk._pii_redact`.
  abbrev pub preview_redaction : Bool → Option (List String) → String → String
  preview_redaction pii_redact chosen text = if pii_redact then redact_text chosen text else text
