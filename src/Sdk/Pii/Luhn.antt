-- ===== src/Sdk/Pii/Luhn.antt =====
-- The Luhn sum of `_luhn_ok`, against the one counted from the last digit.
use Prim.Native.Char.{code}
use inferspect.Prelude.{
  ◌-◌, ℕ, zero, suc, ◌+◌, ◌%◌, ◌≡◌, ◌⊎◌, refl, sym, ◌∙◌, ap, inl, inr, Bool, true, false, not, ◌&&◌,
  String, List, [], ◌∷◌, arith, length, str_len, leb, ◌==◌, Bool-cases, if◌then◌else◌,
}
use inferspect.Sdk.Pii.{Patterns, digit_values, doubled, luhn_from, luhn_ok}

abbrev pub is_odd : ℕ → Bool
is_odd zero = false
is_odd (suc n) = not (is_odd n)

-- Twice a digit, as the sum of its decimal digits.
abbrev pub luhn_digit : ℕ → ℕ
luhn_digit d = if leb d 4 then d + d else d + d - 9

-- The sum of the digits of a text, of which every one at an odd distance from the last is doubled.
abbrev pub luhn_sum : String → ℕ
luhn_sum String.[] = 0
luhn_sum (String.◌∷◌ ch s) =
    (if is_odd (str_len s) then luhn_digit (code ch - 48) else code ch - 48) + luhn_sum s

abbrev checksum : List ℕ → ℕ
checksum [] = 0
checksum (d ∷ ds) = (if is_odd (length ds) then doubled d else d) + checksum ds

doubled_lem : (d : ℕ) → doubled d ≡ luhn_digit d
doubled_lem d = ground arith

odd_mod : (n : ℕ) → ((is_odd n ≡ true) × (n % 2 ≡ 1)) ⊎ ((is_odd n ≡ false) × (n % 2 ≡ 0))
odd_mod zero = inr (refl, refl)
odd_mod (suc n) = ground (arith, odd_mod n)

same_parity : (i n : ℕ) → ((i % 2) == ((i + suc n) % 2)) ≡ is_odd n
same_parity i n = elim (odd_mod n) [
  | inl (o, m) ↦ rw o (ground (arith))
  | inr (o, m) ↦ rw o (ground (arith))
]

luhn_from-checksum :
    (i total : ℕ) (ds : List ℕ) → luhn_from ((i + length ds) % 2) i total ds ≡ total + checksum ds
unfolding luhn_from
luhn_from-checksum i total [] = omega arith
luhn_from-checksum i total (d ∷ ds) =
    let start : (i + length (d ∷ ds)) % 2 ≡ (suc i + length ds) % 2 =
      ap (λ (m : ℕ). m % 2) (omega arith) in
    let step = (if is_odd (length ds) then doubled d else d) in
    rw (same_parity i (length ds)) (
      ap (λ (q : ℕ). luhn_from q (suc i) (total + step) ds) start
      ∙ luhn_from-checksum (suc i) (total + step) ds
      ∙ omega arith)

luhn_whole : (ds : List ℕ) → luhn_from (length ds % 2) 0 0 ds ≡ checksum ds
luhn_whole ds =
    let n : length ds ≡ 0 + length ds = omega arith in
    ap (λ (m : ℕ). luhn_from (m % 2) 0 0 ds) n ∙ luhn_from-checksum 0 0 ds ∙ omega arith

length-digit_values : (s : String) → length (digit_values s) ≡ str_len s
length-digit_values String.[] = refl
length-digit_values (String.◌∷◌ c s) = ap (λ (n : ℕ). suc n) (length-digit_values s)

checksum-digit_values : (s : String) → checksum (digit_values s) ≡ luhn_sum s
checksum-digit_values String.[] = refl
checksum-digit_values (String.◌∷◌ ch s) =
    rw (length-digit_values s, doubled_lem (code ch - 48), checksum-digit_values s) refl

-- `_luhn_ok` accepts exactly the digit strings of 13 to 19 characters whose sum, with every digit at
-- an odd distance from the last one doubled and reduced by 9 above 9, is a multiple of 10, whether
-- their length is odd or even.
pub luhn_ok_correct :
    (p : Patterns) (digits : String)
    → luhn_ok p digits ≡ (
        p.is_digits digits
        && (leb 13 (str_len digits) && leb (str_len digits) 19)
        && (luhn_sum digits % 10) == 0)
unfolding luhn_ok
luhn_ok_correct p digits =
    let n = length-digit_values digits in
    let sum : luhn_from (str_len digits % 2) 0 0 (digit_values digits) ≡ luhn_sum digits =
      ap (λ (m : ℕ). luhn_from (m % 2) 0 0 (digit_values digits)) (sym n)
      ∙ luhn_whole (digit_values digits)
      ∙ checksum-digit_values digits in
    elim (Bool-cases (p.is_digits digits)) [
      | inr e ↦ rw e refl
      | inl e ↦ elim (Bool-cases (leb 13 (str_len digits) && leb (str_len digits) 19)) [
        | inr f ↦ rw (e, f) refl
        | inl f ↦ rw (e, f) (ap (λ (m : ℕ). (m % 10) == 0) sum)
      ]
    ]
