-- ===== src/Value/Dict.antt =====
-- Python's dict with string keys, in insertion order.
use inferspect.Value.Data.{Value, Fields, null, end, field}
use inferspect.Prelude.{
  String, Bool, true, false, ◌≡◌, refl, ap, inl, inr, Bool-cases, Option, none, some, List, [], ◌∷◌,
  arith, str_eq, eq_iff, if◌then◌else◌,
}

-- `d.get(k)`, with `none` for a missing key.
unfoldable pub lookup : String → Fields → Option Value
lookup k end = none
lookup k (field j v fs) = if str_eq j k then some v else lookup k fs

-- `d.get(k)` as a value: `None` for a missing key.
unfoldable pub get : String → Fields → Value
get k fs = elim (lookup k fs) [ none ↦ null | some v ↦ v ]

-- `k in d`
unfoldable pub contains : String → Fields → Bool
contains k fs = elim (lookup k fs) [ none ↦ false | some v ↦ true ]

-- `d[k] = v`
unfoldable pub insert : String → Value → Fields → Fields
insert k v end = field k v end
insert k v (field j w fs) = if str_eq j k then field j v fs else field j w (insert k v fs)

-- `d.setdefault(k, v)`
unfoldable pub set_default : String → Value → Fields → Fields
set_default k v fs = if contains k fs then fs else insert k v fs

unfoldable pub keys : Fields → List String
keys end = []
keys (field k v fs) = k ∷ keys fs

pub lookup-insert :
    (k j : String) (v : Value) (fs : Fields)
    → lookup j (insert k v fs) ≡ (if str_eq k j then some v else lookup j fs)
unfolding lookup insert
lookup-insert k j v end = refl
lookup-insert k j v (field i w fs) =
    ground (arith, eq_iff k j, eq_iff i k, eq_iff i j, lookup-insert k j v fs)

pub lookup-set_default :
    (k j : String) (v : Value) (fs : Fields)
    → str_eq k j ≡ false
    → lookup j (set_default k v fs) ≡ lookup j fs
unfolding set_default
lookup-set_default k j v fs h = ground (arith, lookup-insert k j v fs)

pub get_of : (k : String) (v : Value) (fs : Fields) → lookup k fs ≡ some v → get k fs ≡ v
unfolding get
get_of k v fs h = ground arith

pub get_of_missing : (k : String) (fs : Fields) → lookup k fs ≡ none → get k fs ≡ null
unfolding get
get_of_missing k fs h = ground arith

-- `{k: v for k, v in d.items() if not drops(k)}`
unfoldable pub without : (String → Bool) → Fields → Fields
without drops end = end
without drops (field k v fs) =
    let rest = without drops fs in if drops k then rest else field k v rest

pub lookup-without :
    (drops : String → Bool) (k : String) (fs : Fields)
    → lookup k (without drops fs) ≡ (if drops k then none else lookup k fs)
unfolding without lookup
lookup-without drops k end = ground arith
lookup-without drops k (field j v fs) = elim (Bool-cases (str_eq j k)) [
  | inl same ↦
      let at : drops j ≡ drops k = ap drops ((eq_iff j k).0 same) in
      ground (arith, lookup-without drops k fs)
  | inr apart ↦ ground (arith, lookup-without drops k fs)
]

-- `d.update(kwargs)`
unfoldable pub update : Fields → Fields → Fields
update end fs = fs
update (field k v kwargs) fs = update kwargs (insert k v fs)
