-- ===== src/Ingestion/Pii/Coverage.antt =====
-- How deep `_redact_dict` reaches.
use inferspect.Prelude.{String, ◌≡◌, ◌∙◌, sym, refl, ap, Option, none, some, List, [], ◌∷◌, arith}
use inferspect.Value.{
  Value, Fields, null, bool, int, float, str, arr, obj, end, field, keys, lookup,
}
use inferspect.Ingestion.Pii.{PiiService, redact_value, redact_dict}

abbrev pub redacted_value : PiiService → Option Value → Option Value
redacted_value svc none = none
redacted_value svc (some v) = some (redact_value svc v)

-- The value that a path of keys leads to, through dicts.
unfoldable pub at_path : List String → Value → Option Value
at_path [] v = some v
at_path (k ∷ ks) (obj fs) = elim (lookup k fs) [ none ↦ none | some v ↦ at_path ks v ]
at_path (k ∷ ks) _ = none

lookup-redact_dict :
    (svc : PiiService) (k : String) (fs : Fields)
    → lookup k (redact_dict svc fs) ≡ redacted_value svc (lookup k fs)
unfolding redact_dict lookup
lookup-redact_dict svc k end = refl
lookup-redact_dict svc k (field j v fs) = ground (arith, lookup-redact_dict svc k fs)

redact_value-obj :
    (svc : PiiService) (fs : Fields) → redact_value svc (obj fs) ≡ obj (redact_dict svc fs)
unfolding redact_value redact_dict
redact_value-obj svc fs = refl

-- One key more, given the rest of the path.
at_path_step :
    (svc : PiiService) (k : String) (ks : List String) (fs : Fields)
    → ((v : Value) → at_path ks (redact_value svc v) ≡ redacted_value svc (at_path ks v))
    → at_path (k ∷ ks) (obj (redact_dict svc fs)) ≡ redacted_value svc (at_path (k ∷ ks) (obj fs))
unfolding at_path
at_path_step svc k ks fs rest =
    ap (λ (o : Option Value). elim o as (λ x. Option Value) [ none ↦ none | some v ↦ at_path ks v ])
      (lookup-redact_dict svc k fs)
    ∙ from (lookup k fs)
  where
    from :
        (o : Option Value)
        → (elim (redacted_value svc o) [ none ↦ none | some v ↦ at_path ks v ])
          ≡ redacted_value svc (elim o [ none ↦ none | some v ↦ at_path ks v ])
    from none = refl
    from (some v) = rest v

at_path_split :
    (svc : PiiService) (k : String) (ks : List String) (v : Value)
    → ((w : Value) → at_path ks (redact_value svc w) ≡ redacted_value svc (at_path ks w))
    → at_path (k ∷ ks) (redact_value svc v) ≡ redacted_value svc (at_path (k ∷ ks) v)
unfolding at_path redact_value
at_path_split svc k ks (obj fs) rest =
    ap (at_path (k ∷ ks)) (redact_value-obj svc fs) ∙ at_path_step svc k ks fs rest
at_path_split svc k ks null rest = refl
at_path_split svc k ks (bool b) rest = refl
at_path_split svc k ks (int n) rest = refl
at_path_split svc k ks (float r) rest = refl
at_path_split svc k ks (str s) rest = refl
at_path_split svc k ks (arr xs) rest = refl

at_path-redact_value :
    (svc : PiiService) (path : List String) (v : Value)
    → at_path path (redact_value svc v) ≡ redacted_value svc (at_path path v)
unfolding at_path
at_path-redact_value svc [] v = refl
at_path-redact_value svc (k ∷ ks) v = at_path_split svc k ks v (at_path-redact_value svc ks)

keys-redact_dict : (svc : PiiService) (fs : Fields) → keys (redact_dict svc fs) ≡ keys fs
unfolding redact_dict keys
keys-redact_dict svc end = refl
keys-redact_dict svc (field k v fs) = ap (λ ks. k ∷ ks) (keys-redact_dict svc fs)

-- What any path of keys leads to in a redacted dict is what it leads to in the dict itself,
-- redacted, and nothing where that leads nowhere; the keys stay in their order.
pub redact_dict_covers :
    (svc : PiiService) (path : List String) (fs : Fields)
    → (at_path path (obj (redact_dict svc fs)) ≡ redacted_value svc (at_path path (obj fs)))
      × (keys (redact_dict svc fs) ≡ keys fs)
redact_dict_covers svc path fs = (
  ap (at_path path) (sym (redact_value-obj svc fs)) ∙ at_path-redact_value svc path (obj fs),
  keys-redact_dict svc fs,
)
