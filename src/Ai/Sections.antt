-- ===== src/Ai/Sections.antt =====
-- utils/section_tokens.py: which sections of a payload are meant, and how payloads are merged.
use recentthink_ai_be.Common.{
  String, Bool, true, false, Option, none, some, List, [], ◌∷◌, Dict, lookup, insert, str_eq, ◌||◌,
  if◌then◌else◌,
}
use recentthink_ai_be.Common.Texts.{strip, same_letters, is_lower_of}
use recentthink_ai_be.Ai.Json.{Json, object, fields, dict_at, is_truthy}

abbrev pub top_keys : List String
top_keys = "teacher" ∷ "coder" ∷ "evaluator" ∷ "code_explainer" ∷ []

abbrev pub nest_keys : List String
nest_keys = "feature" ∷ "course" ∷ "dsa_pattern" ∷ "interview" ∷ []

-- `key in allowed` for a key in small letters, with `allowed = {s.strip().lower() for s in sections}`
unfoldable pub allows : List String → String → Bool
unfolding strip is_lower_of
allows [] key = false
allows (s ∷ sections) key = is_lower_of (strip s) key || allows sections key

-- `key.lower() in allowed`
unfoldable pub allows_lowered : List String → String → Bool
unfolding strip same_letters
allows_lowered [] key = false
allows_lowered (s ∷ sections) key = same_letters (strip s) key || allows_lowered sections key

-- `if requested_sections`
abbrev pub is_requested : Option (List String) → Option (List String)
is_requested none = none
is_requested (some []) = none
is_requested (some (s ∷ sections)) = some (s ∷ sections)

-- a key of the generated payload replaces the key of the merged one, if the condition holds
abbrev pub take_if : Bool → String → Dict Json → Dict Json → Dict Json
take_if b key generated merged = elim (lookup key generated) [
  | none ↦ merged
  | some v ↦ if b then insert key v merged else merged
]

-- the first loop, over the modules of the workflow
unfoldable pub merge_top : List String → List String → Dict Json → Dict Json → Dict Json
unfolding allows
merge_top sections [] generated merged = merged
merge_top sections (key ∷ keys) generated merged =
    merge_top sections keys generated (take_if (allows sections key) key generated merged)

-- the children that are asked for by their name, or by the name of their parent
unfoldable pub take_children : List String → Bool → Dict Json → Dict Json → Dict Json
unfolding allows_lowered
take_children sections whole [] base = base
take_children sections whole ((k, v) ∷ children) base =
    take_children sections whole children
      (if allows_lowered sections k || whole then insert k v base else base)

-- the children whose key is, as it stands, the name of a section
unfoldable pub take_named : List String → Dict Json → Dict Json → Dict Json
unfolding allows
take_named sections [] base = base
take_named sections ((k, v) ∷ children) base =
    take_named sections children (if allows sections k then insert k v base else base)

abbrev pub or_empty : Option (Dict Json) → Dict Json
or_empty none = []
or_empty (some d) = d

-- `merged[nest_key] = base_nest`, which is also the feature if there is none
abbrev pub put_nest : String → Dict Json → Dict Json → Dict Json
put_nest nest_key [] merged = merged
put_nest nest_key base merged =
    let merged' = insert nest_key (object (fields base)) merged in
    elim (lookup "feature" merged') [
      | some v ↦ merged'
      | none ↦
          if str_eq nest_key "feature"
          then merged'
          else insert "feature" (object (fields base)) merged'
    ]

-- one round of the second loop
unfoldable pub merge_nest : List String → String → Dict Json → Dict Json → Dict Json
unfolding take_children take_named allows
merge_nest sections nest_key generated merged = elim (dict_at (lookup nest_key generated)) [
  | none ↦ merged
  | some children ↦
      put_nest nest_key
        (take_named sections children (
          take_children sections (allows sections nest_key) children
            (or_empty (dict_at (lookup nest_key merged)))))
        merged
]

unfoldable pub merge_nests : List String → List String → Dict Json → Dict Json → Dict Json
unfolding merge_nest
merge_nests sections [] generated merged = merged
merge_nests sections (key ∷ keys) generated merged =
    merge_nests sections keys generated (merge_nest sections key generated merged)

-- `merge_llm_payload` with sections
unfoldable pub merge_sections : List String → Dict Json → Dict Json → Dict Json
unfolding merge_top merge_nests
merge_sections sections prior generated =
    take_if true "metadata" generated
      (merge_nests sections nest_keys generated (merge_top sections top_keys generated prior))

unfoldable pub merge_llm_payload : Option (Dict Json) → Dict Json → Option (List String) → Dict Json
unfolding merge_sections
merge_llm_payload prior generated requested = elim (is_requested requested) [
  | none ↦ generated
  | some sections ↦ merge_sections sections (or_empty prior) generated
]

-- the children of a nested payload that are asked for
unfoldable pub filter_nests : List String → List String → Dict Json → Dict Json → Dict Json
unfolding take_children allows
filter_nests sections [] payload filtered = filtered
filter_nests sections (key ∷ keys) payload filtered =
    filter_nests sections keys payload (elim (dict_at (lookup key payload)) [
      | none ↦ filtered
      | some children ↦ elim (take_children sections (allows sections key) children []) [
        | [] ↦ filtered
        | c ∷ cs ↦ insert key (object (fields (c ∷ cs))) filtered
      ]
    ])

unfoldable pub filter_sections : List String → Dict Json → Dict Json
unfolding merge_top filter_nests
filter_sections sections payload =
    take_if true "metadata" payload
      (filter_nests sections nest_keys payload (merge_top sections top_keys payload []))

unfoldable pub filter_payload_to_sections : Option (Dict Json) → Option (List String) → Dict Json
unfolding filter_sections
filter_payload_to_sections payload requested = elim (is_requested requested) [
  | none ↦ or_empty payload
  | some sections ↦ elim (or_empty payload) [ [] ↦ [] | p ∷ ps ↦ filter_sections sections (p ∷ ps) ]
]

-- the first of the keys that holds a dict with something in it
unfoldable pub first_dict : List String → Dict Json → Option (Dict Json)
first_dict [] d = none
first_dict (key ∷ keys) d = elim (dict_at (lookup key d)) [
  | none ↦ first_dict keys d
  | some [] ↦ first_dict keys d
  | some (x ∷ xs) ↦ some (x ∷ xs)
]

-- a module's output of the memory, under the name of the module
abbrev pub take_output : String → String → Dict Json → Dict Json → Dict Json
take_output key name memory prior = elim (dict_at (lookup key memory)) [
  | none ↦ prior
  | some d ↦ insert name (object (fields d)) prior
]

-- `a or b`
unfoldable pub or_else : Option Json → Option Json → Option Json
unfolding is_truthy
or_else a b = if is_truthy a then a else b

abbrev pub take_feature : Option (Dict Json) → Dict Json → Dict Json
take_feature none prior = prior
take_feature (some []) prior = prior
take_feature (some (x ∷ xs)) prior = insert "feature" (object (fields (x ∷ xs))) prior

abbrev pub nonempty : Dict Json → Option (Dict Json)
nonempty [] = none
nonempty (x ∷ xs) = some (x ∷ xs)

-- the outputs of the modules that the memory has
unfoldable pub prior_of_memory : Dict Json → Dict Json
unfolding or_else
prior_of_memory memory =
    take_feature
      (dict_at (
        or_else (or_else (lookup "feature_payload" memory) (lookup "dsa_pattern" memory))
          (lookup "course" memory)))
      (take_output "evaluator_output" "evaluator" memory (
        take_output "coder_output" "coder" memory
          (take_output "teacher_output" "teacher" memory [])))

unfoldable pub resolve_prior_payload : Option (Dict Json) → Option (Dict Json) → Option (Dict Json)
unfolding first_dict prior_of_memory
resolve_prior_payload context memory_context =
    elim (first_dict ("prior_llm_raw" ∷ "existing_response" ∷ "existing_sections" ∷ [])
      (or_empty context)) [
        | some d ↦ some d
        | none ↦ nonempty (prior_of_memory (or_empty memory_context))
      ]
