-- ===== src/Sdk/Instrument/Once.antt =====
-- Clients that are instrumented twice.
use inferspect.Prelude.{
  ◌≡◌, refl, ap, sym, ◌∙◌, inl, inr, String, true, false, Bool-cases, Option, none, some,
  Option-cases, List, [], ◌∷◌, arith, str_eq,
}
use inferspect.Sdk.Instrument.{
  set_found, set_inner, walk_into, Node, node, Attrs, bare, attr, attrs_of, with_attrs, get_attr,
  set_attr, Wrapping, wrapped, wrap_leaf, wrap_method,
}

module _ {F : Type 0} where
  get-set :
      (name : String) (n : Node F) (attrs : Attrs F) (m : Node F)
      → get_attr name attrs ≡ some m
      → get_attr name (set_attr name n attrs) ≡ some n
  unfolding get_attr set_attr
  get-set name n bare m found = ground arith
  get-set name n (attr k l rest) m found = elim (Bool-cases (str_eq k name)) [
    | inl same ↦ rw same (rw same refl)
    | inr apart ↦ rw apart (rw apart (get-set name n rest m (rw apart at found)))
  ]

  set-get :
      (name : String) (n : Node F) (attrs : Attrs F)
      → get_attr name attrs ≡ some n
      → set_attr name n attrs ≡ attrs
  unfolding get_attr set_attr
  set-get name n bare found = refl
  set-get name n (attr k l rest) found = elim (Bool-cases (str_eq k name)) [
    | inl same ↦
        let here : some l ≡ some n = rw same at found in
        let eq : l ≡ n = cc here in rw same (ap (λ m. attr k m rest) (sym eq))
    | inr apart ↦ rw apart (ap (attr k l) (set-get name n rest (rw apart at found)))
  ]

  wrapped-wrapped : (w w' : Wrapping F) (n : Node F) → wrapped w' (wrapped w n) ≡ wrapped w n
  wrapped-wrapped w w' (node f true attrs) = refl
  wrapped-wrapped w w' (node f false attrs) = elim (Bool-cases (w.taggable (w.factory f))) [
    | inl yes_tag ↦ rw yes_tag refl
    | inr no_tag ↦ rw no_tag refl
  ]

  with-with :
      (n : Node F) (attrs : Attrs F) → with_attrs (with_attrs n attrs) attrs ≡ with_attrs n attrs
  with-with (node f tagged old) attrs = refl

  attrs_of-with : (n : Node F) (attrs : Attrs F) → attrs_of (with_attrs n attrs) ≡ attrs
  attrs_of-with (node f tagged old) attrs = refl

  leaf_once :
      (w w' : Wrapping F) (leaf : String) (original : Option (Node F)) (attrs : Attrs F)
      {t : Attrs F}
      → get_attr leaf attrs ≡ original
      → set_found w leaf original attrs ≡ some t
      → wrap_leaf w' leaf t ≡ some t
  leaf_once w w' leaf none attrs at done = cc
  leaf_once w w' leaf (some n) attrs {t} at done =
      let same : set_attr leaf (wrapped w n) attrs ≡ t = cc done in
      let held : get_attr leaf t ≡ some (wrapped w n) =
        ap (get_attr leaf) (sym same) ∙ get-set leaf (wrapped w n) attrs n at in
      ap (λ o. set_found w' leaf o t) held
      ∙ ap (λ m. some (set_attr leaf m t)) (wrapped-wrapped w w' n)
      ∙ ap some (set-get leaf (wrapped w n) t held)

  walk_found :
      (inside' : Attrs F → Option (Attrs F)) (part : String) (p : Node F) (inner attrs t : Attrs F)
      → inside' inner ≡ some inner
      → get_attr part attrs ≡ some p
      → set_attr part (with_attrs p inner) attrs ≡ t
      → walk_into part (get_attr part t) inside' t ≡ some t
  walk_found inside' part p inner attrs t again at same =
      let q = with_attrs p inner in
      let held : get_attr part t ≡ some q =
        ap (get_attr part) (sym same) ∙ get-set part q attrs p at in
      let inside : inside' (attrs_of q) ≡ some inner = ap inside' (attrs_of-with p inner) ∙ again in
      ap (λ mine. walk_into part mine inside' t) held
      ∙ ap (λ r. set_inner part q t r) inside
      ∙ ap (λ m. some (set_attr part m t)) (with-with p inner)
      ∙ ap some (set-get part q t held)

  walk_once :
      (inside inside' : Attrs F → Option (Attrs F)) (part : String) (mine : Option (Node F))
      (attrs t : Attrs F)
      → ((a b : Attrs F) → inside a ≡ some b → inside' b ≡ some b)
      → get_attr part attrs ≡ mine
      → walk_into part mine inside attrs ≡ some t
      → walk_into part (get_attr part t) inside' t ≡ some t
  walk_once inside inside' part none attrs t again at done = cc
  walk_once inside inside' part (some p) attrs t again at done =
      elim (Option-cases (inside (attrs_of p))) [
        | inl failed ↦
            let stop : none ≡ some t = ap (λ r. set_inner part p attrs r) (sym failed) ∙ done in
            cc stop
        | inr (inner, e) ↦
            let reached : some (set_attr part (with_attrs p inner) attrs) ≡ some t =
              ap (λ r. set_inner part p attrs r) (sym e) ∙ done in
            walk_found inside' part p inner attrs t (again (attrs_of p) inner e) at (cc reached)
      ]

  -- A client whose method was instrumented stays as it is when the method is instrumented again,
  -- with whatever wrapper.
  pub wrap_method_once :
      (w w' : Wrapping F) (parts : List String) (leaf : String) (attrs t : Attrs F)
      → wrap_method w parts leaf attrs ≡ some t
      → wrap_method w' parts leaf t ≡ some t
  unfolding wrap_method
  wrap_method_once w w' [] leaf attrs t done =
      leaf_once w w' leaf (get_attr leaf attrs) attrs refl done
  wrap_method_once w w' (part ∷ parts) leaf attrs t done =
      walk_once (wrap_method w parts leaf) (wrap_method w' parts leaf) part (get_attr part attrs)
        attrs t (λ a b. wrap_method_once w w' parts leaf a b) refl done
