-- ===== src/Ai/Generation/Stored.antt =====
-- agents/shared/workflow/nodes.py: what a result holds, and what is stored of an answer.
use recentthink_ai_be.Common.{
  ℕ, ◌≡◌, ap, ◌∙◌, String, false, Option, none, some, List, ◌∷◌, Dict, lookup, ◌&&◌, ◌||◌, str_eq,
  arith,
}
use recentthink_ai_be.Ai.Json.{Json}
use recentthink_ai_be.Ai.Sections.{is_requested, merge_llm_payload, top_keys, nest_keys, allows}
use recentthink_ai_be.Ai.Merging.{is_one_of, or_prior, taken_if, merge_lookup}
use recentthink_ai_be.Ai.Generation.Node.{
  Invocation, NodeResult, answered, partial, node_failed, escaped, filled, working, generated_only,
  merged_payload, to_store,
}

-- the payload of a result, and how many calls of the model it took
abbrev pub raw_of : NodeResult → Option (Dict Json)
raw_of (answered a) = some a.llm_raw
raw_of (partial error) = none
raw_of node_failed = none
raw_of escaped = none

abbrev pub calls_of : NodeResult → Option ℕ
calls_of (answered a) = some a.llm_calls
calls_of (partial error) = none
calls_of node_failed = none
calls_of escaped = none

pub working_whole :
    (inv : Invocation) (cached : Dict Json)
    → is_requested inv.requested_sections ≡ none
    → working inv cached ≡ cached
unfolding working
working_whole inv cached e = ground arith

pub merged_whole :
    (inv : Invocation) (payload : Dict Json)
    → is_requested inv.requested_sections ≡ none
    → merged_payload inv payload ≡ payload
unfolding merged_payload generated_only merge_llm_payload
merged_whole inv payload e = ground arith

pub to_store_whole :
    (inv : Invocation) (payload : Dict Json)
    → is_requested inv.requested_sections ≡ none
    → to_store inv payload ≡ payload
unfolding to_store
to_store_whole inv payload e = ground arith

pub to_store_part :
    (inv : Invocation) (payload : Dict Json) (sections : List String)
    → is_requested inv.requested_sections ≡ some sections
    → filled inv.prior_payload ≡ none
    → to_store inv payload ≡ payload
unfolding to_store
to_store_part inv payload sections e f = ground arith

pub to_store_prior :
    (inv : Invocation) (payload : Dict Json) (s : String) (sections : List String)
    (prior : Dict Json)
    → inv.requested_sections ≡ some (s ∷ sections)
    → inv.prior_payload ≡ some prior
    → filled (some prior) ≡ some prior
    → to_store inv payload ≡ merged_payload inv payload
unfolding to_store
to_store_prior inv payload s sections prior e f g =
    let part = ap is_requested e in let had = ap filled f ∙ g in ground arith

pub merged_kept :
    (inv : Invocation) (payload : Dict Json) (s : String) (sections : List String)
    (prior : Dict Json) (other : String)
    → inv.requested_sections ≡ some (s ∷ sections)
    → inv.prior_payload ≡ some prior
    → is_one_of other nest_keys ≡ false
    → (str_eq "metadata" other || (is_one_of other top_keys && allows (s ∷ sections) other)) ≡ false
    → lookup other (merged_payload inv payload) ≡ lookup other prior
unfolding merged_payload
merged_kept inv payload s sections prior other e f outside kept =
    let taken = generated_only inv payload in
    ap (λ o. lookup other (merge_llm_payload o taken inv.requested_sections)) f
    ∙ ap (λ r. lookup other (merge_llm_payload (some prior) taken r)) e
    ∙ merge_lookup prior taken s sections other outside
    ∙ ap (λ t. or_prior (taken_if t (lookup other taken)) (lookup other prior)) kept
