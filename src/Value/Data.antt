-- ===== src/Value/Data.antt =====
-- Python values as `json.loads` makes them: dicts and lists are data types of their own.
use inferspect.Prelude.{ℕ, zero, suc, String, Bool, true, false, not, ◌||◌, str_eq}

-- A Python int; `negsuc n` is -(n + 1).
pub data ℤ : Type 0 where
  pos negsuc : ℕ → ℤ

-- A float stands as its `repr`, which the services never compute with here.
mutual
  -- A dict, in insertion order.
  pub data Fields : Type 0 where
    end : Fields
    field : String → Value → Fields → Fields

  pub data Value : Type 0 where
    null : Value
    obj : Fields → Value
    bool : Bool → Value
    int : ℤ → Value
    arr : Items → Value
    str : String → Value
    float : String → Value

  -- A list.
  pub data Items : Type 0 where
    cons : Value → Items → Items
    nil : Items

-- `bool(v)`
abbrev pub truthy : Value → Bool
truthy null = false
truthy (bool b) = b
truthy (int (pos n)) = elim n [ zero ↦ false | suc m ↦ true ]
truthy (int (negsuc n)) = true
truthy (float r) = not (str_eq r "0.0" || str_eq r "-0.0")
truthy (str s) = not (str_eq s "")
truthy (arr nil) = false
truthy (arr (cons x xs)) = true
truthy (obj end) = false
truthy (obj (field k v fs)) = true
