-- ===== src/Insights/Anchor/Filled.antt =====
-- Whether anchors and hashes are empty.
use inferspect.Prelude.{
  ℕ, ◌≡◌, ◌≢◌, refl, inl, inr, arith, String, Option, none, some, List, [], ◌∷◌, Option-cases,
}
use inferspect.Value.{Value, Fields}
use inferspect.Insights.Anchor.{
  Python, role_text, get_or_text, extract_message_text, next_hash, roll_one, rolling_hash_from,
  build_anchor,
}
use inferspect.Insights.Anchor.Body.{
  Json, anchored, zeros, dicts, pair_up, anchor_of, parse_wire_body, build_full_anchor,
}

module _ (py : Python) (digests : (bs : List ℕ) → py.sha256 bs ≢ []) where
  digest_filled : (bs r : List ℕ) → some (py.sha256 bs) ≡ some r → r ≢ []
  digest_filled bs r e z = digests bs cc

  next_hash-filled :
      (h r : List ℕ) (role content : Option String) → next_hash py h role content ≡ some r → r ≢ []
  unfolding roll_one
  next_hash-filled h r (some role) (some content) e = digest_filled _ r e
  next_hash-filled h r none content e = cc
  next_hash-filled h r (some role) none e = cc

  rolling_hash_from-filled :
      (ms : List Fields) (h r : List ℕ) → h ≢ [] → rolling_hash_from py h ms ≡ some r → r ≢ []
  unfolding rolling_hash_from
  rolling_hash_from-filled [] h r full e = λ z. full cc
  rolling_hash_from-filled (m ∷ ms) h r full e =
      let role = role_text py (get_or_text py "role" m) in
      let content = extract_message_text py (get_or_text py "content" m) in
      elim (Option-cases (next_hash py h role content)) [
        | inl stop ↦ ground arith
        | inr (h', step) ↦
            let later : rolling_hash_from py h' ms ≡ some r = ground arith in
            rolling_hash_from-filled ms h' r (next_hash-filled h h' role content step) later
      ]

  pair_up-filled :
      (a h : Option (List ℕ)) (anchor hash : List ℕ)
      → ((r : List ℕ) → h ≡ some r → r ≢ [])
      → pair_up a h ≡ anchored anchor hash
      → (anchor ≢ []) × (hash ≢ [])
  pair_up-filled (some (b ∷ bs)) (some r) anchor hash full e = (λ z. cc, λ z. full r refl cc)
  pair_up-filled (some []) (some r) anchor hash full e = cc
  pair_up-filled none h anchor hash full e = cc
  pair_up-filled (some []) none anchor hash full e = cc
  pair_up-filled (some (b ∷ bs)) none anchor hash full e = cc

  -- What is anchored has an anchor and a hash.
  anchor_of-filled :
      (messages : Option (List Value)) (anchor hash : List ℕ)
      → anchor_of py messages ≡ anchored anchor hash
      → (anchor ≢ []) × (hash ≢ [])
  unfolding anchor_of
  anchor_of-filled none anchor hash e = cc
  anchor_of-filled (some []) anchor hash e = cc
  anchor_of-filled (some (v ∷ vs)) anchor hash e = elim (Option-cases (dicts (v ∷ vs))) [
    | inl bad ↦ ground arith
    | inr (ms, good) ↦
        pair_up-filled (build_anchor py ms) (rolling_hash_from py zeros ms) anchor hash
          (λ r. rolling_hash_from-filled ms zeros r (λ z. cc)) (ground arith)
  ]

  pub build_full_anchor-filled :
      (json : Json) (preview : String) (anchor hash : List ℕ)
      → build_full_anchor py json preview ≡ anchored anchor hash
      → (anchor ≢ []) × (hash ≢ [])
  unfolding build_full_anchor
  build_full_anchor-filled json preview anchor hash e =
      anchor_of-filled (parse_wire_body json preview) anchor hash e
