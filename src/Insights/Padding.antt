-- ===== src/Insights/Padding.antt =====
-- How long an anchor is.
use inferspect.Prelude.{
  ℕ, zero, suc, ◌∷◌, ◌+◌, ◌≤◌, ◌≡◌, ◌↔◌, ltb, if◌then◌else◌, inl, inr, String, List, [], arith,
  length, take, Bool-cases, leb, str_append,
}
use inferspect.Insights.Anchor.{Python, pad}

length-take-le-length : (n : ℕ) (xs : List ℕ) → length (take n xs) ≤ length xs
length-take-le-length zero xs = omega arith
length-take-le-length (suc n) [] = omega arith
length-take-le-length (suc n) (x ∷ xs) = omega (arith, length-take-le-length n xs)

le-length-take : (n k : ℕ) (xs : List ℕ) → k ≤ n → k ≤ length xs → k ≤ length (take n xs)
le-length-take n zero xs h l = omega arith
le-length-take zero (suc k) xs h l = absurd (omega (arith, h))
le-length-take (suc n) (suc k) [] h l = absurd (omega (arith, l))
le-length-take (suc n) (suc k) (x ∷ xs) h l =
    omega (arith, le-length-take n k xs (omega (arith, h)) (omega (arith, l)))

module _ (py : Python) where
  -- The bytes of a text, or of its JSON field where there are fewer than 16, up to 128 of them.
  abbrev pub padding : String → List ℕ
  padding text =
      if ltb (length (py.utf8 text)) 16
      then take 128 (py.utf8 (str_append "\"content\":\"" (str_append text "\"")))
      else take 128 (py.utf8 text)

  -- Where the JSON wrapper adds its 12 bytes to a text, the padded text reaches the 16 bytes that the
  -- kernel's scan asks for exactly if the text has 4 bytes or more.
  pub pad_reaches :
      (text : String)
      → length (py.utf8 (str_append "\"content\":\"" (str_append text "\"")))
        ≡ length (py.utf8 text) + 12
      → (16 ≤ length (pad py text)) ↔ (4 ≤ length (py.utf8 text))
  unfolding pad
  pad_reaches text wraps =
      let raw = py.utf8 text in
      let wrapped = py.utf8 (str_append "\"content\":\"" (str_append text "\"")) in
      elim (Bool-cases (leb 16 (length raw))) [
        | inl e ↦
            let long : 16 ≤ length raw = ground arith in
            (
              rw e (λ h. omega (arith, long)),
              rw e (λ h. le-length-take 128 16 raw (omega arith) long),
            )
        | inr e ↦ (
          rw e (λ h. omega (arith, wraps, h, length-take-le-length 128 wrapped)),
          rw e (λ h. le-length-take 128 16 wrapped (omega arith) (omega (arith, wraps, h))),
        )
      ]
