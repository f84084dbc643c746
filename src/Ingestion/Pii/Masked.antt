-- ===== src/Ingestion/Pii/Masked.antt =====
-- The redaction, as it is expected of a text, of a text field and of a dict.
use inferspect.Prelude.{
  String, ◌≡◌, refl, ap, ap₂, inl, inr, Option, none, some, List, [], ◌∷◌, str_eq, Bool-cases,
  if◌then◌else◌,
}
use inferspect.Value.{Value, Fields, null, bool, int, float, str, arr, obj, end, field}
use inferspect.Ingestion.Pii.{PiiService, anonymized, redact_text, redact_value, redact_dict}
use inferspect.Ingestion.Pii.Changes.{redact_top, redact_deep}

module _ (svc : PiiService) where
  abbrev anonymous : String → List String → String
  anonymous s [] = s
  anonymous s (r ∷ rs) = elim (svc.anonymize s (r ∷ rs)) [ none ↦ s | some t ↦ t ]

  -- A text in which entities are found is anonymised, unless an engine raises.
  abbrev with_entities : String → Option (List String) → String
  with_entities s none = s
  with_entities s (some found) = anonymous s found

  abbrev pub without_pii : String → String
  without_pii s = with_entities s (svc.analyze s)

  abbrev pub masked_text : String → String
  masked_text s = if str_eq s "" then s else without_pii s

  -- In a dict every text is masked, at any depth of dicts, but no text in a list.
  unfoldable mutual
    pub masked : Value → Value
    masked (str s) = str (masked_text s)
    masked (obj fs) = obj (masked_fields fs)
    masked null = null
    masked (bool b) = bool b
    masked (int n) = int n
    masked (float r) = float r
    masked (arr xs) = arr xs

    pub masked_fields : Fields → Fields
    masked_fields end = end
    masked_fields (field k v fs) = field k (masked v) (masked_fields fs)

  anonymized_lem :
      (s : String) (found : Option (List String)) → anonymized svc s found ≡ with_entities s found
  anonymized_lem s none = refl
  anonymized_lem s (some []) = refl
  anonymized_lem s (some (r ∷ rs)) = refl

  redact_text_lem : (s : String) → redact_text svc s ≡ without_pii s
  unfolding redact_text
  redact_text_lem s = anonymized_lem s (svc.analyze s)

  blank_or_masked : (s : String) → (if str_eq s "" then s else redact_text svc s) ≡ masked_text s
  blank_or_masked s = rw (redact_text_lem s) refl

  mutual
    unfolding redact_value masked redact_dict masked_fields

    redact_value_lem : (v : Value) → redact_value svc v ≡ masked v
    redact_value_lem (str s) = ap str (blank_or_masked s)
    redact_value_lem (obj fs) = ap obj (redact_dict_lem fs)
    redact_value_lem null = refl
    redact_value_lem (bool b) = refl
    redact_value_lem (int n) = refl
    redact_value_lem (float r) = refl
    redact_value_lem (arr xs) = refl

    redact_dict_lem : (fs : Fields) → redact_dict svc fs ≡ masked_fields fs
    redact_dict_lem end = refl
    redact_dict_lem (field k v fs) = ap₂ (field k) (redact_value_lem v) (redact_dict_lem fs)

  -- What becomes of the value at a text field, and at a dict field.
  abbrev pub masked_top : Value → Value
  masked_top (str s) = str (masked_text s)
  masked_top v = v

  abbrev pub masked_deep : Value → Value
  masked_deep (obj fs) = obj (masked_fields fs)
  masked_deep v = v

  pub redact_top_lem : (v : Value) → redact_top svc v ≡ masked_top v
  redact_top_lem (str s) = elim (Bool-cases (str_eq s "")) [
    | inl e ↦ rw e refl
    | inr e ↦ rw e (ap str (redact_text_lem s))
  ]
  redact_top_lem v = refl

  pub redact_deep_lem : (v : Value) → redact_deep svc v ≡ masked_deep v
  redact_deep_lem (obj fs) = ap obj (redact_dict_lem fs)
  redact_deep_lem v = refl
