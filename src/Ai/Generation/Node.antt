-- ===== src/Ai/Generation/Node.antt =====
-- agents/shared/workflow/nodes.py `openrouter_node`, `try_openrouter_cache` and `apply_llm_response`: the
-- cache, the model and the merge. An invocation holds what its prompts and settings come to. The times of
-- the calls of the cache are given; cost and latency are not part of the model.
use recentthink_ai_be.Common.{
  ℕ, String, Bool, true, false, Option, none, some, List, [], ◌∷◌, Dict, lookup,
}
use recentthink_ai_be.Ai.Json.{Json, object, fields, as_dict}
use recentthink_ai_be.Ai.Sections.{is_requested, merge_llm_payload, filter_payload_to_sections}
use recentthink_ai_be.Ai.Estimate.{Measures, estimate_section_tokens}
use recentthink_ai_be.Ai.Cache.Backing.{Backing}
use recentthink_ai_be.Ai.Cache.Manager
use recentthink_ai_be.Ai.Cache.Manager.{CacheManager, ttl_for_feature}
use recentthink_ai_be.Ai.Generation.Types.{Response, Checks, Failure, total_tokens as tokens_of}
use recentthink_ai_be.Ai.Generation.Loop.{Outcome, generated, failed, raised, generate, apply_from}

-- `OpenRouterInvocation`, less the prompts, the model and the numbers that go to it
pub record Invocation : Type 0 where
  pub feature : String
  pub max_tokens : ℕ
  pub requested_sections : Option (List String)
  pub prior_payload : Option (Dict Json)
  pub cache_key : Option String

-- the keys of the state that an answer sets
pub record Answered : Type 0 where
  pub llm_raw : Dict Json
  pub teacher_output : Option Json
  pub coder_output : Option Json
  pub evaluator_output : Option Json
  pub section_tokens : Dict ℕ
  pub regenerated_sections : Option (List String)
  pub input_tokens : ℕ
  pub output_tokens : ℕ
  pub total_tokens : ℕ
  pub cache_hit : Bool
  pub max_tokens : ℕ
  -- in the trace
  pub llm_calls : ℕ

-- an answer, the status `partial` with the last error, the status `failed`, or an exception
pub data NodeResult : Type 0 where
  answered : Answered → NodeResult
  partial : Option Failure → NodeResult
  node_failed : NodeResult
  escaped : NodeResult

-- a dict with something in it
abbrev pub filled : Option (Dict Json) → Option (Dict Json)
filled none = none
filled (some []) = none
filled (some (x ∷ xs)) = some (x ∷ xs)

-- `a or b`
abbrev pub prior_or : Option (Dict Json) → Dict Json → Dict Json
prior_or none d = d
prior_or (some p) d = p

-- the sections of the cached payload that were asked for, put into the prior one
unfoldable pub working : Invocation → Dict Json → Dict Json
working inv cached = elim (is_requested inv.requested_sections) [
  | none ↦ cached
  | some sections ↦
      merge_llm_payload (some (prior_or (filled inv.prior_payload) cached))
        (filter_payload_to_sections (some cached) inv.requested_sections) inv.requested_sections
]

-- the payload, or its sections that were asked for
unfoldable pub generated_only : Invocation → Dict Json → Dict Json
generated_only inv payload = elim (is_requested inv.requested_sections) [
  | none ↦ payload
  | some sections ↦ filter_payload_to_sections (some payload) inv.requested_sections
]

unfoldable pub merged_payload : Invocation → Dict Json → Dict Json
unfolding generated_only
merged_payload inv payload =
    merge_llm_payload inv.prior_payload (generated_only inv payload) inv.requested_sections

-- what the cache is given
unfoldable pub to_store : Invocation → Dict Json → Dict Json
unfolding merged_payload
to_store inv payload = elim (is_requested inv.requested_sections) [
  | none ↦ payload
  | some sections ↦ elim (filled inv.prior_payload) [
    | none ↦ payload
    | some prior ↦ merged_payload inv payload
  ]
]

module _ (measures : Measures) where
  -- the result on a hit
  unfoldable pub from_cache : Invocation → Dict Json → NodeResult
  unfolding working generated_only
  from_cache inv cached =
      let raw = working inv cached in
      answered (record {
        llm_raw = raw;
        teacher_output = lookup "teacher" raw;
        coder_output = lookup "coder" raw;
        evaluator_output = lookup "evaluator" raw;
        section_tokens =
            estimate_section_tokens measures (some (generated_only inv cached)) 0
              inv.requested_sections;
        regenerated_sections = is_requested inv.requested_sections;
        input_tokens = 0;
        output_tokens = 0;
        total_tokens = 0;
        cache_hit = true;
        max_tokens = inv.max_tokens;
        llm_calls = 0;
      })

module _ (b : Backing) where
  -- a cached value counts if it is a dict with something in it
  abbrev pub cached_dict : Option Json × CacheManager b → Option (Dict Json) × CacheManager b
  cached_dict (none, m) = (none, m)
  cached_dict (some v, m) = (filled (as_dict v), m)

  -- `try_openrouter_cache`, and the first part of `openrouter_node`
  unfoldable pub try_openrouter_cache :
      ℕ → ℕ → Invocation → CacheManager b → Option (Dict Json) × CacheManager b
  try_openrouter_cache now elapsed inv m = elim inv.cache_key [
    | none ↦ (none, m)
    | some key ↦ cached_dict (Manager.get b now elapsed key m)
  ]

  abbrev pub store_answer : ℕ → Invocation → Dict Json → CacheManager b → CacheManager b
  store_answer now inv payload m = elim inv.cache_key [
    | none ↦ m
    | some key ↦
        Manager.set b now key (object (fields (to_store inv payload)))
          (some (ttl_for_feature m.settings inv.feature)) m
  ]

module _ (b : Backing) (measures : Measures) where
  -- what follows the loop, given what becomes of an exception in it
  unfoldable pub finish :
      NodeResult → ℕ → Invocation → Outcome × ℕ → CacheManager b → NodeResult × CacheManager b
  unfolding merged_payload to_store generated_only tokens_of
  finish on_raise now inv (failed error, calls) m = (partial error, m)
  finish on_raise now inv (raised, calls) m = (on_raise, m)
  finish on_raise now inv (generated payload r, calls) m =
      let raw = merged_payload inv payload in
      (
        answered (record {
          llm_raw = raw;
          teacher_output = lookup "teacher" raw;
          coder_output = lookup "coder" raw;
          evaluator_output = lookup "evaluator" raw;
          section_tokens =
              estimate_section_tokens measures (some (generated_only inv payload))
                r.completion_tokens inv.requested_sections;
          regenerated_sections = is_requested inv.requested_sections;
          input_tokens = r.prompt_tokens;
          output_tokens = r.completion_tokens;
          total_tokens = tokens_of r;
          cache_hit = false;
          max_tokens = inv.max_tokens;
          llm_calls = calls;
        }),
        store_answer b now inv payload m,
      )

  module _ (checks : Checks) (complete : ℕ → ℕ → Option Response) (max_retries : ℕ) where
    abbrev pub or_generate :
        ℕ → Invocation → Option (Dict Json) × CacheManager b → NodeResult × CacheManager b
    or_generate later inv (some cached, m) = (from_cache measures inv cached, m)
    or_generate later inv (none, m) =
        finish node_failed later inv
          (generate checks complete inv.requested_sections max_retries inv.max_tokens) m

    -- the look-up is at `now`, and the answer is stored at `later`
    unfoldable pub openrouter_node :
        ℕ → ℕ → ℕ → Invocation → CacheManager b → NodeResult × CacheManager b
    unfolding try_openrouter_cache from_cache finish
    openrouter_node now elapsed later inv m =
        or_generate later inv (try_openrouter_cache b now elapsed inv m)

    -- with the answer that was streamed, after `llm_calls` calls
    unfoldable pub apply_llm_response :
        ℕ → ℕ → Invocation → Response → CacheManager b → NodeResult × CacheManager b
    unfolding finish
    apply_llm_response later llm_calls inv r m =
        finish escaped later inv
          (apply_from checks complete inv.requested_sections max_retries llm_calls inv.max_tokens r)
          m
