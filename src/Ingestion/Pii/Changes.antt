-- ===== src/Ingestion/Pii/Changes.antt =====
-- How the steps of a redaction change a dict.
use inferspect.Prelude.{
  String, ◌≡◌, refl, ap, inl, inr, none, some, arith, str_eq, eq_iff, Bool-cases, Option-cases, sym,
  ◌∙◌, if◌then◌else◌,
}
use inferspect.Value.{
  Value, Fields, str, obj, lookup, insert, lookup-insert, get_of, get_of_missing,
}
use inferspect.Ingestion.Pii.{
  PiiService, redact_text, redact_dict, redact_field_at, redact_field, redact_nested_at,
  redact_nested,
}

-- What becomes of the value at a text field, and at a dict field.
abbrev pub redact_top : PiiService → Value → Value
redact_top svc (str s) = if str_eq s "" then str s else str (redact_text svc s)
redact_top svc v = v

abbrev pub redact_deep : PiiService → Value → Value
redact_deep svc (obj fs) = obj (redact_dict svc fs)
redact_deep svc v = v

-- A dict changed by `f` at key `k` and nowhere else.
abbrev pub MapsAt : (Value → Value) → String → Fields → Fields → Type 0
MapsAt f k out out' =
    (j : String)
    → lookup j out'
      ≡ elim (lookup j out) [ none ↦ none | some v ↦ some (if str_eq k j then f v else v) ]

same-MapsAt :
    (f : Value → Value) (k : String) (out : Fields) (v : Value)
    → lookup k out ≡ some v
    → f v ≡ v
    → MapsAt f k out out
same-MapsAt f k out v e fixed j = elim (Bool-cases (str_eq k j)) [
  | inl same ↦
      let here : lookup j out ≡ some v =
        ap (λ (i : String). lookup i out) (sym ((eq_iff k j).0 same)) ∙ e in
      ground arith
  | inr other ↦ ground arith
]

insert-MapsAt :
    (f : Value → Value) (k : String) (out : Fields) (v : Value)
    → lookup k out ≡ some v
    → MapsAt f k out (insert k (f v) out)
insert-MapsAt f k out v e j = elim (Bool-cases (str_eq k j)) [
  | inl same ↦
      let here : lookup j out ≡ some v =
        ap (λ (i : String). lookup i out) (sym ((eq_iff k j).0 same)) ∙ e in
      ground (arith, lookup-insert k j (f v) out)
  | inr other ↦ ground (arith, lookup-insert k j (f v) out)
]

missing-MapsAt :
    (f : Value → Value) (k : String) (out : Fields) → lookup k out ≡ none → MapsAt f k out out
missing-MapsAt f k out e j = elim (Bool-cases (str_eq k j)) [
  | inl same ↦
      let here : lookup j out ≡ none =
        ap (λ (i : String). lookup i out) (sym ((eq_iff k j).0 same)) ∙ e in
      ground arith
  | inr other ↦ ground arith
]

redact_field_at-MapsAt :
    (svc : PiiService) (k : String) (out : Fields) (v : Value)
    → lookup k out ≡ some v
    → MapsAt (redact_top svc) k out (redact_field_at svc k out v)
redact_field_at-MapsAt svc k out (str s) e = elim (Bool-cases (str_eq s "")) [
  | inl void ↦ rw void (same-MapsAt (redact_top svc) k out (str s) e (rw void))
  | inr full ↦ rw full (let m = insert-MapsAt (redact_top svc) k out (str s) e in rw full at m)
]
redact_field_at-MapsAt svc k out v e = same-MapsAt (redact_top svc) k out v e refl

pub redact_field-MapsAt :
    (svc : PiiService) (k : String) (out : Fields)
    → MapsAt (redact_top svc) k out (redact_field svc k out)
unfolding redact_field
redact_field-MapsAt svc k out = elim (Option-cases (lookup k out)) [
  | inl e ↦ rw (get_of_missing k out e) (missing-MapsAt (redact_top svc) k out e)
  | inr (v, e) ↦ rw (get_of k v out e) (redact_field_at-MapsAt svc k out v e)
]

redact_nested_at-MapsAt :
    (svc : PiiService) (k : String) (out : Fields) (v : Value)
    → lookup k out ≡ some v
    → MapsAt (redact_deep svc) k out (redact_nested_at svc k out v)
redact_nested_at-MapsAt svc k out (obj fs) e = insert-MapsAt (redact_deep svc) k out (obj fs) e
redact_nested_at-MapsAt svc k out v e = same-MapsAt (redact_deep svc) k out v e refl

pub redact_nested-MapsAt :
    (svc : PiiService) (k : String) (out : Fields)
    → MapsAt (redact_deep svc) k out (redact_nested svc k out)
unfolding redact_nested
redact_nested-MapsAt svc k out = elim (Option-cases (lookup k out)) [
  | inl e ↦ rw (get_of_missing k out e) (missing-MapsAt (redact_deep svc) k out e)
  | inr (v, e) ↦ rw (get_of k v out e) (redact_nested_at-MapsAt svc k out v e)
]
