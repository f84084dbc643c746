-- ===== src/Insights/Anomaly/Sorting.antt =====
-- Lemmas on the sorted list.
use inferspect.Prelude.{
  ℕ, zero, suc, ◌≡◌, Bool, true, false, inl, inr, List, [], ◌∷◌, All, Bool-cases, take, drop,
}
use inferspect.Insights.Anomaly.{insert_by, sort_by}

module _ {ℓ κ} {A : Type ℓ} (before : A → A → Bool) (P : A → Type κ) where
  pub insert_by-All : (x : A) (xs : List A) → P x → All P xs → All P (insert_by before x xs)
  unfolding insert_by
  insert_by-All x [] p ps = (p, tt)
  insert_by-All x (y ∷ ys) p ps = elim (Bool-cases (before y x)) [
    | inl e ↦ rw e (ps.0, insert_by-All x ys p ps.1)
    | inr e ↦ rw e (p, ps)
  ]

  -- What holds of every item holds of every item of the sorted list.
  pub sort_by-All : (xs : List A) → All P xs → All P (sort_by before xs)
  unfolding sort_by
  sort_by-All [] ps = tt
  sort_by-All (x ∷ xs) ps = insert_by-All x (sort_by before xs) ps.0 (sort_by-All xs ps.1)

module _ {ℓ κ} {A : Type ℓ} (R : A → A → Type κ) where
  -- Each item stands in the relation to all that follow it.
  abbrev pub IsSortedBy : List A → Type κ
  IsSortedBy [] = Unit
  IsSortedBy (x ∷ xs) = All (R x) xs × IsSortedBy xs

  All-drop : (n : ℕ) (x : A) (xs : List A) → All (R x) xs → All (R x) (drop n xs)
  All-drop zero x xs h = h
  All-drop (suc n) x [] h = tt
  All-drop (suc n) x (y ∷ ys) h = All-drop n x ys h.1

  -- What is taken from the front stands in the relation to all that is left.
  pub take-drop-IsSortedBy :
      (n : ℕ) (xs : List A) → IsSortedBy xs → All (λ x. All (R x) (drop n xs)) (take n xs)
  take-drop-IsSortedBy zero xs s = tt
  take-drop-IsSortedBy (suc n) [] s = tt
  take-drop-IsSortedBy (suc n) (x ∷ xs) s = (All-drop n x xs s.0, take-drop-IsSortedBy n xs s.1)

  All-take : (n : ℕ) (x : A) (xs : List A) → All (R x) xs → All (R x) (take n xs)
  All-take zero x xs h = tt
  All-take (suc n) x [] h = tt
  All-take (suc n) x (y ∷ ys) h = (h.0, All-take n x ys h.1)

  pub take-IsSortedBy : (n : ℕ) (xs : List A) → IsSortedBy xs → IsSortedBy (take n xs)
  take-IsSortedBy zero xs s = tt
  take-IsSortedBy (suc n) [] s = tt
  take-IsSortedBy (suc n) (x ∷ xs) s = (All-take n x xs s.0, take-IsSortedBy n xs s.1)

-- Sorting by a test that decides a transitive relation.
module _ {ℓ κ} {A : Type ℓ} (before : A → A → Bool) (R : A → A → Type κ)
    (chain : (a b c : A) → R a b → R b c → R a c) (ahead : (a b : A) → before a b ≡ true → R a b)
    (behind : (a b : A) → before a b ≡ false → R b a) where
  All-chain : (a b : A) (xs : List A) → R a b → All (R b) xs → All (R a) xs
  All-chain a b [] h hs = tt
  All-chain a b (x ∷ xs) h hs = (chain a b x h hs.0, All-chain a b xs h hs.1)

  insert_by-IsSortedBy :
      (x : A) (xs : List A) → IsSortedBy R xs → IsSortedBy R (insert_by before x xs)
  unfolding insert_by
  insert_by-IsSortedBy x [] s = (tt, tt)
  insert_by-IsSortedBy x (y ∷ ys) s = elim (Bool-cases (before y x)) [
    | inl e ↦
        rw e (insert_by-All before (R y) x ys (ahead y x e) s.0, insert_by-IsSortedBy x ys s.1)
    | inr e ↦ let first = behind y x e in rw e ((first, All-chain x y ys first s.0), s)
  ]

  pub sort_by-IsSortedBy : (xs : List A) → IsSortedBy R (sort_by before xs)
  unfolding sort_by
  sort_by-IsSortedBy [] = tt
  sort_by-IsSortedBy (x ∷ xs) = insert_by-IsSortedBy x (sort_by before xs) (sort_by-IsSortedBy xs)
