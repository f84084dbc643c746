-- ===== src/Sdk/Pii/Expected.antt =====
-- The redaction of a text, as it is expected of each recognizer.
use inferspect.Prelude.{
  ◌≡◌, refl, ap, String, Bool, false, ◌||◌, ◌&&◌, ◌∙◌, drop, Option, none, some, List, [], ◌∷◌, map,
  arith, str_eq, str_len, str_append, str_join, leb, inl, inr, Bool-cases, if◌then◌else◌,
}
use inferspect.Sdk.Pii.{
  Piece, kept, matched, Regex, Patterns, luhn_ok, substituted, sub, redact_card, redact_iban,
  is_named, recognizers, apply_named, redact_text,
}

abbrev is_among : String → List String → Bool
is_among name [] = false
is_among name (n ∷ ns) = str_eq name n || is_among name ns

-- A text with each match replaced.
abbrev replaced : (String → String) → List Piece → String
replaced f [] = ""
replaced f (kept s ∷ ps) = str_append s (replaced f ps)
replaced f (matched s ∷ ps) = str_append (f s) (replaced f ps)

-- The recognizers that run where none are chosen: all but that of IPv6.
abbrev pub chosen_names : Option (List String) → List String
chosen_names none =
    "EMAIL_ADDRESS" ∷ "PHONE_NUMBER" ∷ "CREDIT_CARD" ∷ "US_SSN" ∷ "IBAN_CODE" ∷ "IPV4"
    ∷ "AWS_ACCESS_KEY" ∷ []
chosen_names (some names) = names

module _ (p : Patterns) where
  -- The matches of a pattern are replaced where its recognizer is named.
  abbrev pass : List String → String → Regex → (String → String) → String → String
  pass names name r f t = if is_among name names then replaced f (r.pieces t) else t

  -- Cards only where they pass the Luhn test, IBANs only of 15 to 34 characters.
  abbrev card_mark : String → String
  card_mark s = if luhn_ok p (p.strip_separators s) then "<CREDIT_CARD>" else s

  abbrev iban_mark : String → String
  iban_mark s = if leb 15 (str_len s) && leb (str_len s) 34 then "<IBAN_CODE>" else s

  -- The passes in their order.
  abbrev passes : List String → String → String
  passes ns t0 =
      let t1 = pass ns "CREDIT_CARD" p.card card_mark t0 in
      let t2 = pass ns "US_SSN" p.ssn (λ m. "<US_SSN>") t1 in
      let t3 = pass ns "IBAN_CODE" p.iban iban_mark t2 in
      let t4 = pass ns "AWS_ACCESS_KEY" p.aws_key (λ m. "<AWS_ACCESS_KEY>") t3 in
      let t5 = pass ns "EMAIL_ADDRESS" p.email (λ m. "<EMAIL_ADDRESS>") t4 in
      let t6 = pass ns "PHONE_NUMBER" p.phone_e164 (λ m. "<PHONE_NUMBER>") t5 in
      let t7 = pass ns "PHONE_NUMBER" p.phone_na (λ m. "<PHONE_NUMBER>") t6 in
      let t8 = pass ns "IPV4" p.ipv4 (λ m. "<IPV4>") t7 in pass ns "IPV6" p.ipv6 (λ m. "<IPV6>") t8

  unfoldable pub expected_text : Option (List String) → String → String
  expected_text chosen text = if str_eq text "" then text else passes (chosen_names chosen) text

  sub-replaced :
      (f : String → String) (ps : List Piece) → str_join (map (substituted f) ps) ≡ replaced f ps
  sub-replaced f [] = refl
  sub-replaced f (kept s ∷ ps) = ap (str_append s) (sub-replaced f ps)
  sub-replaced f (matched s ∷ ps) = ap (str_append (f s)) (sub-replaced f ps)

  is_named-is_among : (name : String) (ns : List String) → is_named p name ns ≡ is_among name ns
  is_named-is_among name [] = refl
  is_named-is_among name (n ∷ ns) = ground (arith, is_named-is_among name ns)

  pass_lem :
      (ns : List String) (name : String) (r : Regex) (f : String → String) (t : String)
      → (if is_named p name ns then sub r f t else t) ≡ pass ns name r f t
  unfolding sub
  pass_lem ns name r f t = rw (is_named-is_among name ns, sub-replaced f (r.pieces t)) refl

  phone_lem :
      (ns : List String) (f g : String → String) (t : String)
      → (if is_named p "PHONE_NUMBER" ns then sub p.phone_na g (sub p.phone_e164 f t) else t)
        ≡ pass ns "PHONE_NUMBER" p.phone_na g (pass ns "PHONE_NUMBER" p.phone_e164 f t)
  unfolding sub
  phone_lem ns f g t = elim (Bool-cases (is_among "PHONE_NUMBER" ns)) [
    | inl e ↦
        rw (is_named-is_among "PHONE_NUMBER" ns, e)
          (sub-replaced g
              (p.phone_na.pieces (str_join (map (substituted f) (p.phone_e164.pieces t))))
            ∙ ap (λ s. replaced g (p.phone_na.pieces s)) (sub-replaced f (p.phone_e164.pieces t)))
    | inr e ↦ rw (is_named-is_among "PHONE_NUMBER" ns, e) refl
  ]

  passes_lem : (ns : List String) (t0 : String) → apply_named p (recognizers p) ns t0 ≡ passes ns t0
  unfolding apply_named redact_card redact_iban
  passes_lem ns t0 =
      let t1 = pass ns "CREDIT_CARD" p.card card_mark t0 in
      let t2 = pass ns "US_SSN" p.ssn (λ m. "<US_SSN>") t1 in
      let t3 = pass ns "IBAN_CODE" p.iban iban_mark t2 in
      let t4 = pass ns "AWS_ACCESS_KEY" p.aws_key (λ m. "<AWS_ACCESS_KEY>") t3 in
      let t5 = pass ns "EMAIL_ADDRESS" p.email (λ m. "<EMAIL_ADDRESS>") t4 in
      let t7 =
        pass ns "PHONE_NUMBER" p.phone_na (λ m. "<PHONE_NUMBER>")
          (pass ns "PHONE_NUMBER" p.phone_e164 (λ m. "<PHONE_NUMBER>") t5) in
      let t8 = pass ns "IPV4" p.ipv4 (λ m. "<IPV4>") t7 in
      ap (λ t. apply_named p (drop 1 (recognizers p)) ns t)
        (pass_lem ns "CREDIT_CARD" p.card card_mark t0)
      ∙ ap (λ t. apply_named p (drop 2 (recognizers p)) ns t)
          (pass_lem ns "US_SSN" p.ssn (λ m. "<US_SSN>") t1)
      ∙ ap (λ t. apply_named p (drop 3 (recognizers p)) ns t)
          (pass_lem ns "IBAN_CODE" p.iban iban_mark t2)
      ∙ ap (λ t. apply_named p (drop 4 (recognizers p)) ns t)
          (pass_lem ns "AWS_ACCESS_KEY" p.aws_key (λ m. "<AWS_ACCESS_KEY>") t3)
      ∙ ap (λ t. apply_named p (drop 5 (recognizers p)) ns t)
          (pass_lem ns "EMAIL_ADDRESS" p.email (λ m. "<EMAIL_ADDRESS>") t4)
      ∙ ap (λ t. apply_named p (drop 6 (recognizers p)) ns t)
          (phone_lem ns (λ m. "<PHONE_NUMBER>") (λ m. "<PHONE_NUMBER>") t5)
      ∙ ap (λ t. apply_named p (drop 7 (recognizers p)) ns t)
          (pass_lem ns "IPV4" p.ipv4 (λ m. "<IPV4>") t7)
      ∙ pass_lem ns "IPV6" p.ipv6 (λ m. "<IPV6>") t8

  pub redact_text_lem :
      (chosen : Option (List String)) (text : String)
      → redact_text p chosen text ≡ expected_text chosen text
  unfolding redact_text expected_text
  redact_text_lem none text = ground (arith, passes_lem (chosen_names none) text)
  redact_text_lem (some names) text = ground (arith, passes_lem names text)
