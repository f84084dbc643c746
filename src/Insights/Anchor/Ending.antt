-- ===== src/Insights/Anchor/Ending.antt =====
-- The loop over a body that was cut off.
use inferspect.Prelude.{
  ℕ, zero, suc, ◌+◌, ◌-◌, ◌<◌, ◌≡◌, refl, inl, inr, String, false, Option, some, List, [], arith,
  str_len, str_drop, str_append, Bool-cases, Option-cases,
}
use inferspect.Value.{Value, Fields}
use inferspect.Insights.Anchor.{one}
use inferspect.Insights.Anchor.Lenient.{
  array_start, separators, closes, is_separator, keep, next, parse_loop, parse_messages_lenient,
}

pub str_drop-append : (a t : String) → str_drop (str_len a) (str_append a t) ≡ t
str_drop-append String.[] t = refl
str_drop-append (String.◌∷◌ c a) t = str_drop-append a t

str_len-drop : (n : ℕ) (s : String) → str_len (str_drop n s) ≡ str_len s - n
str_len-drop zero s = omega arith
str_len-drop (suc n) String.[] = omega arith
str_len-drop (suc n) (String.◌∷◌ c s) = omega (arith, str_len-drop n s)

-- A value ends after where it starts.
abbrev pub Advances : (String → ℕ → Option (Value × ℕ)) → Type 0
Advances raw_decode =
    (s : String) (pos : ℕ) (v : Value) (end : ℕ) → raw_decode s pos ≡ some (v, end) → pos < end

open_within : (n : ℕ) (s : String) → closes (str_drop n s) ≡ false → n < str_len s
open_within zero String.[] h = cc
open_within zero (String.◌∷◌ c s) h = omega arith
open_within (suc n) String.[] h = cc
open_within (suc n) (String.◌∷◌ c s) h = omega (arith, open_within n s h)

pub separators-gap :
    (gap t : String)
    → separators gap ≡ str_len gap
    → separators (str_append gap t) ≡ str_len gap + separators t
separators-gap String.[] t h = omega arith
separators-gap (String.◌∷◌ c gap) t h = elim (Bool-cases (is_separator (one c))) [
  | inl e ↦
      let inner : separators gap ≡ str_len gap = ground arith in
      let rest = separators-gap gap t inner in ground arith
  | inr e ↦ ground arith
]

module _ (raw_decode : String → ℕ → Option (Value × ℕ)) where
  next_forward :
      Advances raw_decode
      → (s : String) (pos : ℕ) (v : Value) (end : ℕ) → next raw_decode s pos ≡ some (v, end)
      → (pos < end) × (pos < str_len s)
  unfolding next
  next_forward adv s pos v end h =
      let at = pos + separators (str_drop pos s) in
      elim (Bool-cases (closes (str_drop at s))) [
        | inl e ↦ ground arith
        | inr e ↦
            let within : at < str_len s = open_within at s e in
            let got : raw_decode s at ≡ some (v, end) = ground arith in
            let forward : at < end = adv s at v end got in (omega arith, omega arith)
      ]

  parse_loop_ends :
      Advances raw_decode
      → (fuel : ℕ) (s : String) (pos : ℕ) → str_len s - pos < fuel
      → (ms : List Fields) × (parse_loop raw_decode fuel s pos ≡ some ms)
  unfolding parse_loop
  parse_loop_ends adv zero s pos h = ground arith
  parse_loop_ends adv (suc fuel) s pos h = elim (Option-cases (next raw_decode s pos)) [
    | inl e ↦ rw (parse_loop, e) ([], refl)
    | inr ((v, end), e) ↦
        let forward = next_forward adv s pos v end e in
        let (ms, later) = parse_loop_ends adv fuel s end (omega (arith, forward)) in
        rw (parse_loop, e, later) (keep v ms, refl)
  ]

  -- The loop ends, on every text, when a value that is decoded ends after where it starts.
  pub parse_messages_lenient_ends :
      Advances raw_decode
      → (s : String) → (ms : List Fields) × (parse_messages_lenient raw_decode s ≡ some ms)
  unfolding parse_messages_lenient
  parse_messages_lenient_ends adv s = elim (Option-cases (array_start s)) [
    | inl e ↦ rw (parse_messages_lenient, e) ([], refl)
    | inr (start, e) ↦
        rw (parse_messages_lenient, e) (parse_loop_ends adv (suc (str_len s)) s start (omega arith))
  ]
