-- ===== src/Prelude/Texts.antt =====
-- Python's `str` as the native text: length, prefix and concatenation by characters.
use Prim.Native.Nat.{ℕ, zero, suc, ◌+◌, ◌≤◌}
use Prim.Native.String.{String}
use mathlib.Core.Path.{◌≡◌, refl, sym, ap, ◌∙◌}
use mathlib.Core.List.{List, [], ◌∷◌, ◌++◌}
use Prim.Native.Char.{Char}
use mathlib.Core.Bool.{Bool, true, false, ◌&&◌}
use mathlib.Core.Option.{Option, none, some}
use inferspect.Prelude.Tests.{str_eq, if◌then◌else◌}
use native.Mathlib.Omega.{arith}

-- `len(s)`
abbrev pub str_len : String → ℕ
str_len String.[] = 0
str_len (String.◌∷◌ c s) = suc (str_len s)

-- `s[:n]`
abbrev pub str_take : ℕ → String → String
str_take zero s = ""
str_take (suc n) String.[] = ""
str_take (suc n) (String.◌∷◌ c s) = String.◌∷◌ c (str_take n s)

-- `s[n:]`
abbrev pub str_drop : ℕ → String → String
str_drop zero s = s
str_drop (suc n) String.[] = ""
str_drop (suc n) (String.◌∷◌ c s) = str_drop n s

-- `s + t`
abbrev pub str_append : String → String → String
str_append String.[] t = t
str_append (String.◌∷◌ c s) t = String.◌∷◌ c (str_append s t)

-- `"".join(xs)`
abbrev pub str_join : List String → String
str_join [] = ""
str_join (s ∷ xs) = str_append s (str_join xs)

abbrev one : Char → String
one c = String.◌∷◌ c ""

-- `s.startswith(prefix)`
abbrev pub str_startswith : String → String → Bool
str_startswith String.[] s = true
str_startswith (String.◌∷◌ c cs) String.[] = false
str_startswith (String.◌∷◌ c cs) (String.◌∷◌ d s) = str_eq (one c) (one d) && str_startswith cs s

-- `s.find(needle)`, with `none` for -1.
abbrev pub str_find : String → String → Option ℕ
str_find needle String.[] = if str_startswith needle "" then some 0 else none
str_find needle (String.◌∷◌ c s) =
    let later = str_find needle s in
    if str_startswith needle (String.◌∷◌ c s)
    then some 0
    else elim later [ none ↦ none | some n ↦ some (suc n) ]

pub str_len-take-le : (n : ℕ) (s : String) → str_len (str_take n s) ≤ n
str_len-take-le zero s = omega arith
str_len-take-le (suc n) String.[] = omega arith
str_len-take-le (suc n) (String.◌∷◌ c s) = omega (arith, str_len-take-le n s)

pub str_len-append : (s t : String) → str_len (str_append s t) ≡ str_len s + str_len t
str_len-append String.[] t = omega arith
str_len-append (String.◌∷◌ c s) t = omega (arith, str_len-append s t)

pub str_append_empty : (s : String) → str_append s "" ≡ s
str_append_empty String.[] = refl
str_append_empty (String.◌∷◌ c s) = ap (λ t. String.◌∷◌ c t) (str_append_empty s)

pub str_append_assoc :
    (s t u : String) → str_append (str_append s t) u ≡ str_append s (str_append t u)
str_append_assoc String.[] t u = refl
str_append_assoc (String.◌∷◌ c s) t u = ap (λ r. String.◌∷◌ c r) (str_append_assoc s t u)

pub str_join-snoc :
    (xs : List String) (t : String) → str_join (xs ++ t ∷ []) ≡ str_append (str_join xs) t
str_join-snoc [] t = str_append_empty t
str_join-snoc (s ∷ xs) t =
    ap (str_append s) (str_join-snoc xs t) ∙ sym (str_append_assoc s (str_join xs) t)
