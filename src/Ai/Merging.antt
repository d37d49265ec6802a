-- ===== src/Ai/Merging.antt =====
-- utils/section_tokens.py: what a merged payload keeps of the prior one, and what it takes.
use recentthink_ai_be.Common.{
  ◌≡◌, refl, ◌∙◌, subst, inl, inr, Bool-cases, String, Bool, true, false, Option, none, some, List,
  [], ◌∷◌, arith, Dict, lookup, insert, lookup-insert_if, str_eq, eq_iff, ◌&&◌, ◌||◌, if◌then◌else◌,
}
use recentthink_ai_be.Ai.Json.{Json, object, fields, dict_at}
use recentthink_ai_be.Ai.Sections.{
  top_keys, nest_keys, allows, take_if, merge_top, take_children, take_named, or_empty, put_nest,
  merge_nest, merge_nests, merge_sections, merge_llm_payload,
}

-- is it one of the keys?
abbrev pub is_one_of : String → List String → Bool
is_one_of key [] = false
is_one_of key (k ∷ ks) = str_eq k key || is_one_of key ks

-- the value that is taken, or else the one that was there
abbrev pub or_prior : Option Json → Option Json → Option Json
or_prior none prior = prior
or_prior (some v) prior = some v

abbrev pub taken_if : Bool → Option Json → Option Json
taken_if true o = o
taken_if false o = none

lookup-take_value :
    (b : Bool) (key other : String) (o : Option Json) (merged : Dict Json)
    → lookup other (elim o [ none ↦ merged | some v ↦ if b then insert key v merged else merged ])
      ≡ or_prior (taken_if (str_eq key other && b) o) (lookup other merged)
lookup-take_value b key other none merged = ground arith
lookup-take_value b key other (some v) merged = ground (arith, lookup-insert_if key other v merged)

pub lookup-take_if :
    (b : Bool) (key other : String) (generated merged : Dict Json)
    → lookup other (take_if b key generated merged)
      ≡ or_prior (taken_if (str_eq key other && b) (lookup other generated)) (lookup other merged)
lookup-take_if b key other generated merged = elim (Bool-cases (str_eq key other)) [
  | inl same ↦
      subst
        (λ k.
          lookup other (take_if b key generated merged)
          ≡ or_prior (taken_if (str_eq key other && b) (lookup k generated)) (lookup other merged))
        ((eq_iff key other).0 same) (lookup-take_value b key other (lookup key generated) merged)
  | inr differ ↦ lookup-take_value b key other (lookup key generated) merged ∙ ground arith
]

pub lookup-merge_top :
    (sections keys : List String) (other : String) (generated merged : Dict Json)
    → lookup other (merge_top sections keys generated merged)
      ≡ or_prior
          (taken_if (is_one_of other keys && allows sections other) (lookup other generated))
          (lookup other merged)
unfolding merge_top
lookup-merge_top sections [] other generated merged = refl
lookup-merge_top sections (key ∷ keys) other generated merged = ground (
  arith,
  eq_iff key other,
  lookup-take_if (allows sections key) key other generated merged,
  lookup-merge_top sections keys other generated
      (take_if (allows sections key) key generated merged),
)

lookup-put_nest :
    (nest_key : String) (base merged : Dict Json) (other : String)
    → str_eq nest_key other ≡ false
    → str_eq "feature" other ≡ false
    → lookup other (put_nest nest_key base merged) ≡ lookup other merged
lookup-put_nest nest_key [] merged other ne nf = refl
lookup-put_nest nest_key (b ∷ base) merged other ne nf =
    let nest = object (fields (b ∷ base)) in
    ground (
      arith,
      lookup-insert_if nest_key other nest merged,
      lookup-insert_if "feature" other nest (insert nest_key nest merged),
    )

-- a round for one nested payload changes that payload and the feature alone
pub lookup-merge_nest :
    (sections : List String) (nest_key other : String) (generated merged : Dict Json)
    → str_eq nest_key other ≡ false
    → str_eq "feature" other ≡ false
    → lookup other (merge_nest sections nest_key generated merged) ≡ lookup other merged
unfolding merge_nest
lookup-merge_nest sections nest_key other generated merged ne nf =
    elim (dict_at (lookup nest_key generated))
      as (λ o.
        lookup other (elim o [
          | none ↦ merged
          | some children ↦
              put_nest nest_key
                (take_named sections children (
                  take_children sections (allows sections nest_key) children
                    (or_empty (dict_at (lookup nest_key merged)))))
                merged
        ])
        ≡ lookup other merged) [
          | none ↦ refl
          | some children ↦
              lookup-put_nest nest_key
                (take_named sections children (
                  take_children sections (allows sections nest_key) children
                    (or_empty (dict_at (lookup nest_key merged)))))
                merged other ne nf
        ]

pub lookup-merge_nests :
    (sections keys : List String) (other : String) (generated merged : Dict Json)
    → is_one_of other keys ≡ false
    → str_eq "feature" other ≡ false
    → lookup other (merge_nests sections keys generated merged) ≡ lookup other merged
unfolding merge_nests
lookup-merge_nests sections [] other generated merged h nf = refl
lookup-merge_nests sections (key ∷ keys) other generated merged h nf =
    lookup-merge_nests sections keys other generated (merge_nest sections key generated merged)
      (ground arith) nf
    ∙ lookup-merge_nest sections key other generated merged (ground arith) nf

-- Outside of the nested payloads, a merge takes from the generated payload what was asked for by its
-- name and the metadata, where it has them, and keeps everything else of the prior payload.
pub merge_lookup :
    (prior generated : Dict Json) (s : String) (sections : List String) (other : String)
    → is_one_of other nest_keys ≡ false
    → lookup other (merge_llm_payload (some prior) generated (some (s ∷ sections)))
      ≡ or_prior
          (taken_if
            (str_eq "metadata" other || (is_one_of other top_keys && allows (s ∷ sections) other))
            (lookup other generated))
          (lookup other prior)
unfolding merge_llm_payload merge_sections
merge_lookup prior generated s sections other h =
    let top = merge_top (s ∷ sections) top_keys generated prior in
    ground (
      arith,
      lookup-take_if true "metadata" other generated
          (merge_nests (s ∷ sections) nest_keys generated top),
      lookup-merge_nests (s ∷ sections) nest_keys other generated top,
      lookup-merge_top (s ∷ sections) top_keys other generated prior,
    )
