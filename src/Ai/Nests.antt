-- ===== src/Ai/Nests.antt =====
-- utils/section_tokens.py: the nested payloads of a merge.
use recentthink_ai_be.Common.{
  ◌≡◌, refl, sym, ap, ◌∙◌, subst, ◌⊎◌, inl, inr, ◌≤◌, String, Bool, true, false, Option, none, some,
  List, [], ◌∷◌, ◌++◌, arith, Dict, lookup, insert, occurs, lookup-insert, lookup-insert_if, str_eq,
  eq_iff, ◌||◌,
}
use recentthink_ai_be.Ai.Json.{Json, object, fields, dict_at}
use recentthink_ai_be.Ai.Sections.{
  top_keys, nest_keys, allows, allows_lowered, merge_top, take_children, take_named, or_empty,
  put_nest, merge_nest, merge_nests, merge_sections, merge_llm_payload,
}
use recentthink_ai_be.Ai.Merging.{
  is_one_of, or_prior, taken_if, lookup-take_if, lookup-merge_top, lookup-merge_nest,
  lookup-merge_nests,
}
use recentthink_ai_be.Ai.Children.{
  allows_lowered-allows, items-fields, lookup-take_children, lookup-take_named,
}

-- the nested payload of a key, empty if there is none
abbrev pub nest : String → Dict Json → Dict Json
nest nest_key d = or_empty (dict_at (lookup nest_key d))

-- is the child asked for, by its name or by that of its nested payload?
abbrev pub is_asked : List String → String → String → Bool
is_asked sections nest_key child = allows_lowered sections child || allows sections nest_key

abbrev base_nest : List String → String → Dict Json → Dict Json → Dict Json
base_nest sections nest_key children old =
    take_named sections children (take_children sections (allows sections nest_key) children old)

lookup-base_nest :
    (sections : List String) (nest_key : String) (children old : Dict Json) (child : String)
    → occurs child children ≤ 1
    → lookup child (base_nest sections nest_key children old)
      ≡ or_prior
          (taken_if (is_asked sections nest_key child) (lookup child children))
          (lookup child old)
lookup-base_nest sections nest_key children old child h = ground (
  arith,
  allows_lowered-allows sections child,
  lookup-take_named sections children
      (take_children sections (allows sections nest_key) children old) child,
  lookup-take_children sections (allows sections nest_key) children old child,
)

-- the nested payload that is put is the one found, save that no empty one is put
nest-put_nest :
    (nest_key : String) (base merged : Dict Json)
    → str_eq "feature" nest_key ≡ false
    → nest nest_key (put_nest nest_key base merged)
      ≡ elim base [ [] ↦ nest nest_key merged | b ∷ bs ↦ b ∷ bs ]
nest-put_nest nest_key [] merged nf = refl
nest-put_nest nest_key (b ∷ bs) merged nf =
    let value = object (fields (b ∷ bs)) in
    let put : lookup nest_key (put_nest nest_key (b ∷ bs) merged) ≡ some value = ground (
      arith,
      lookup-insert nest_key value merged,
      lookup-insert_if "feature" nest_key value (insert nest_key value merged),
    ) in
    rw put (items-fields (b ∷ bs))

or_prior-none : (a b : Option Json) → or_prior a b ≡ none → b ≡ none
or_prior-none none b h = h
or_prior-none (some v) b h = ground arith

merge_nest-some :
    (sections : List String) (nest_key : String) (generated merged children : Dict Json)
    → dict_at (lookup nest_key generated) ≡ some children
    → merge_nest sections nest_key generated merged
      ≡ put_nest nest_key (base_nest sections nest_key children (nest nest_key merged)) merged
unfolding merge_nest
merge_nest-some sections nest_key generated merged children e =
    ap
      (λ o. elim o [
        | none ↦ merged
        | some cs ↦ put_nest nest_key (base_nest sections nest_key cs (nest nest_key merged)) merged
      ])
      e

lookup-put :
    (nest_key child : String) (base merged : Dict Json) (taken : Option Json)
    → str_eq "feature" nest_key ≡ false
    → lookup child base ≡ or_prior taken (lookup child (nest nest_key merged))
    → lookup child (nest nest_key (put_nest nest_key base merged))
      ≡ or_prior taken (lookup child (nest nest_key merged))
lookup-put nest_key child [] merged taken nf e =
    or_prior-none taken (lookup child (nest nest_key merged)) (sym e) ∙ e
lookup-put nest_key child (b ∷ bs) merged taken nf e =
    ap (lookup child) (nest-put_nest nest_key (b ∷ bs) merged nf) ∙ e

lookup-round :
    (sections : List String) (nest_key child : String) (generated merged children : Dict Json)
    → str_eq "feature" nest_key ≡ false
    → dict_at (lookup nest_key generated) ≡ some children
    → occurs child children ≤ 1
    → lookup child (nest nest_key (merge_nest sections nest_key generated merged))
      ≡ or_prior
          (taken_if (is_asked sections nest_key child) (lookup child children))
          (lookup child (nest nest_key merged))
lookup-round sections nest_key child generated merged children nf e h =
    ap (λ d. lookup child (nest nest_key d))
      (merge_nest-some sections nest_key generated merged children e)
    ∙ lookup-put nest_key child (base_nest sections nest_key children (nest nest_key merged)) merged
        (taken_if (is_asked sections nest_key child) (lookup child children)) nf
        (lookup-base_nest sections nest_key children (nest nest_key merged) child h)

-- the rounds before and after the one for the key leave its nested payload alone
lookup-rounds :
    (sections before after : List String) (nest_key child : String)
    (generated merged children : Dict Json)
    → is_one_of nest_key before ≡ false
    → is_one_of nest_key after ≡ false
    → str_eq "feature" nest_key ≡ false
    → dict_at (lookup nest_key generated) ≡ some children
    → occurs child children ≤ 1
    → lookup child
        (nest nest_key (merge_nests sections (before ++ nest_key ∷ after) generated merged))
      ≡ or_prior
          (taken_if (is_asked sections nest_key child) (lookup child children))
          (lookup child (nest nest_key merged))
unfolding merge_nests
lookup-rounds sections [] after nest_key child generated merged children nb na nf e h =
    ap (λ o. lookup child (or_empty (dict_at o)))
      (lookup-merge_nests sections after nest_key generated
        (merge_nest sections nest_key generated merged) na nf)
    ∙ lookup-round sections nest_key child generated merged children nf e h
lookup-rounds sections (key ∷ before) after nest_key child generated merged children nb na nf e h =
    lookup-rounds sections before after nest_key child generated
      (merge_nest sections key generated merged) children (ground arith) na nf e h
    ∙ ap
        (λ o.
          or_prior (taken_if (is_asked sections nest_key child) (lookup child children))
            (lookup child (or_empty (dict_at o))))
        (lookup-merge_nest sections key nest_key generated merged (ground arith) nf)

-- the nested payloads of a product, the feature apart
abbrev pub product_keys : List String
product_keys = "course" ∷ "dsa_pattern" ∷ "interview" ∷ []

one_of_three :
    (a b c key : String) → is_one_of key (a ∷ b ∷ c ∷ []) ≡ true → (a ≡ key) ⊎ (b ≡ key) ⊎ (c ≡ key)
one_of_three a b c key h = ground (arith, eq_iff a key, eq_iff b key, eq_iff c key)

module _ (sections : List String) (prior generated children : Dict Json) (child : String) where
  abbrev Merges : String → Dict Json → Type 0
  Merges nest_key merged =
      lookup child (nest nest_key merged)
      ≡ or_prior (taken_if (is_asked sections nest_key child) (lookup child children))
          (lookup child (nest nest_key prior))

  -- the other steps of a merge leave a nested payload alone
  Merges-around :
      (before after : List String) (nest_key : String)
      → before ++ nest_key ∷ after ≡ nest_keys
      → is_one_of nest_key before ≡ false
      → is_one_of nest_key after ≡ false
      → str_eq "feature" nest_key ≡ false
      → str_eq "metadata" nest_key ≡ false
      → is_one_of nest_key top_keys ≡ false
      → dict_at (lookup nest_key generated) ≡ some children
      → occurs child children ≤ 1
      → Merges nest_key (merge_sections sections prior generated)
  unfolding merge_sections
  Merges-around before after nest_key all nb na nf nm nt e h =
      let top = merge_top sections top_keys generated prior in
      let same_top : lookup nest_key top ≡ lookup nest_key prior =
        lookup-merge_top sections top_keys nest_key generated prior ∙ ground arith in
      let last =
        lookup-take_if true "metadata" nest_key generated
          (merge_nests sections nest_keys generated top) in
      let rounds =
        lookup-rounds sections before after nest_key child generated top children nb na nf e h in
      ap (λ o. lookup child (or_empty (dict_at o))) (last ∙ ground arith)
      ∙ subst
          (λ keys.
            lookup child (nest nest_key (merge_nests sections keys generated top))
            ≡ or_prior (taken_if (is_asked sections nest_key child) (lookup child children))
                (lookup child (nest nest_key prior)))
          all
          (rounds
            ∙ ap
                (λ o.
                  or_prior (taken_if (is_asked sections nest_key child) (lookup child children))
                    (lookup child (or_empty (dict_at o))))
                same_top)

  Merges-product :
      (nest_key : String)
      → is_one_of nest_key product_keys ≡ true
      → dict_at (lookup nest_key generated) ≡ some children
      → occurs child children ≤ 1
      → Merges nest_key (merge_sections sections prior generated)
  Merges-product nest_key k = elim (one_of_three "course" "dsa_pattern" "interview" nest_key k) [
    | inl e ↦
        subst
          (λ key.
            dict_at (lookup key generated) ≡ some children
            → occurs child children ≤ 1
            → Merges key (merge_sections sections prior generated))
          e
          (Merges-around ("feature" ∷ []) ("dsa_pattern" ∷ "interview" ∷ []) "course" refl refl refl
            refl refl refl)
    | inr (inl e) ↦
        subst
          (λ key.
            dict_at (lookup key generated) ≡ some children
            → occurs child children ≤ 1
            → Merges key (merge_sections sections prior generated))
          e
          (Merges-around ("feature" ∷ "course" ∷ []) ("interview" ∷ []) "dsa_pattern" refl refl refl
            refl refl refl)
    | inr (inr e) ↦
        subst
          (λ key.
            dict_at (lookup key generated) ≡ some children
            → occurs child children ≤ 1
            → Merges key (merge_sections sections prior generated))
          e
          (Merges-around ("feature" ∷ "course" ∷ "dsa_pattern" ∷ []) [] "interview" refl refl refl
            refl refl refl)
  ]

-- In the nested payload of a product, a merge takes the generated children that were asked for, by
-- their name or by the name of the product, and keeps all other children of the prior payload.
pub merge_children :
    (prior generated children : Dict Json) (s : String) (sections : List String)
    (nest_key child : String)
    → is_one_of nest_key product_keys ≡ true
    → dict_at (lookup nest_key generated) ≡ some children
    → occurs child children ≤ 1
    → lookup child (nest nest_key (merge_llm_payload (some prior) generated (some (s ∷ sections))))
      ≡ or_prior
          (taken_if (is_asked (s ∷ sections) nest_key child) (lookup child children))
          (lookup child (nest nest_key prior))
unfolding merge_llm_payload
merge_children prior generated children s sections nest_key child k e h =
    Merges-product (s ∷ sections) prior generated children child nest_key k e h
