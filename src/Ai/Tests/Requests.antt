-- ===== src/Ai/Tests/Requests.antt =====
-- Requests that the model answers, and later ones.
use recentthink_ai_be.Common.{
  ℕ, zero, suc, ◌≡◌, refl, ◌&&◌, ◌||◌, String, false, Option, none, some, List, [], ◌∷◌, Dict,
  lookup, arith, str_eq, if◌then◌else◌,
}
use recentthink_ai_be.Ai.Json.{Json, null, text, object, fields}
use recentthink_ai_be.Ai.Sections.{filter_payload_to_sections, merge_llm_payload, allows, top_keys}
use recentthink_ai_be.Ai.Tokens.{max, more_tokens}
use recentthink_ai_be.Ai.Merging.{is_one_of}
use recentthink_ai_be.Ai.Cache.Backing.{Entry}
use recentthink_ai_be.Ai.Cache.Provider
use recentthink_ai_be.Ai.Cache.Manager
use recentthink_ai_be.Ai.Cache.Manager.{CacheManager}
use recentthink_ai_be.Ai.Generation.Types.{
  Response, Checks, valid, invalid, judge, likely_truncated,
}
use recentthink_ai_be.Ai.Generation.Loop.{generated, failed, generate}
use recentthink_ai_be.Ai.Generation.Node.{
  Invocation, NodeResult, filled, merged_payload, try_openrouter_cache, to_store, openrouter_node,
}
use recentthink_ai_be.Ai.Generation.Ending.{generate_ends, Within}
use recentthink_ai_be.Ai.Generation.Stored.{raw_of, calls_of}
use recentthink_ai_be.Ai.Generation.Served.{
  first, second, Answers, answer_reused, subset_served_as_whole, prior_served_to_others,
}
use recentthink_ai_be.Ai.Tests.Table.{table, table-Laws}
use recentthink_ai_be.Ai.Tests.Payloads.{measures}
use recentthink_ai_be.Ai.Tests.Caching.{new_cache}

abbrev whole_answer : Dict Json
whole_answer = ("teacher", text "sort first") ∷ ("coder", text "code") ∷ []

-- a text in braces is valid, any other is not
abbrev checks : Checks
checks = record {
  validate = λ s. if str_eq s "{}" then valid whole_answer else invalid "no JSON";
  normalize = λ payload. payload;
  is_llm_response_empty = λ payload. false;
  feature_payload_missing_content = λ payload. false;
}

abbrev good : Response
good = record {
  content = "{}";
  finish_reason = some "stop";
  prompt_tokens = 10;
  completion_tokens = 20;
}

abbrev bad : Response
bad = record {
  content = "{\"teacher";
  finish_reason = some "length";
  prompt_tokens = 10;
  completion_tokens = 20;
}

-- the first answer is cut off, the second is good
abbrev complete : ℕ → ℕ → Option Response
complete zero tokens = some bad
complete (suc n) tokens = some good

abbrev silent : ℕ → ℕ → Option Response
silent n tokens = none

abbrev request : Option (List String) → Option (Dict Json) → Invocation
request sections prior = record {
  feature = "leetcode";
  max_tokens = 1800;
  requested_sections = sections;
  prior_payload = prior;
  cache_key = some "leetcode:two-sum";
}

twice : generate checks complete none 2 1800 ≡ (generated whole_answer good, 2)
unfolding generate judge
twice = refl

never :
    generate checks (λ n tokens. some bad) none 0 1800
    ≡ (failed (some (likely_truncated "no JSON" 3848)), 1)
unfolding generate judge more_tokens
never = refl

generate_ends_example :
    Within checks complete none 0 3 (max 1800 16000) (generate checks complete none 2 1800)
generate_ends_example = generate_ends checks complete none 2 1800

abbrev all_sections : Invocation
all_sections = request none none

abbrev part_of : Invocation
part_of = request (some ("coder" ∷ [])) none

abbrev part_of_prior : Invocation
part_of_prior = request (some ("coder" ∷ [])) (some (("teacher", text "mine") ∷ []))

-- the cache after the first request and another key's answer, some seconds later
abbrev later_cache : Invocation → CacheManager table
later_cache inv =
    Manager.set table 20 "leetcode:other" null none
      (first table table-Laws measures 2 checks complete silent 5 1 6 30 1 31 inv new_cache).1

abbrev item_of : Invocation → Entry
item_of inv = record { value = object (fields (to_store inv whole_answer)); expires_at = 96 }

-- the model answers each of them with the whole payload, at the second call
abbrev AnsweredFor : Invocation → Invocation → Type 0
AnsweredFor inv later_inv =
    Answers table table-Laws measures 2 checks complete silent 5 1 6 30 1 31 "leetcode:two-sum" inv
      later_inv whole_answer good 2 new_cache (later_cache inv)

all_answered : AnsweredFor all_sections all_sections
unfolding generate judge try_openrouter_cache Manager.get Provider.get Manager.set Provider.set
    openrouter_node to_store Manager.ttl_for_feature
all_answered = record {
  on = refl;
  key_of_first = refl;
  key_of_later = refl;
  missed = refl;
  answer = refl;
  later_on = refl;
  item = item_of all_sections;
  left = refl;
  held = refl;
  fresh = omega arith;
}

part_answered : AnsweredFor part_of all_sections
unfolding generate judge try_openrouter_cache Manager.get Provider.get Manager.set Provider.set
    openrouter_node to_store Manager.ttl_for_feature
part_answered = record {
  on = refl;
  key_of_first = refl;
  key_of_later = refl;
  missed = refl;
  answer = refl;
  later_on = refl;
  item = item_of part_of;
  left = refl;
  held = refl;
  fresh = omega arith;
}

prior_answered : AnsweredFor part_of_prior all_sections
unfolding generate judge try_openrouter_cache Manager.get Provider.get Manager.set Provider.set
    openrouter_node to_store Manager.ttl_for_feature
prior_answered = record {
  on = refl;
  key_of_first = refl;
  key_of_later = refl;
  missed = refl;
  answer = refl;
  later_on = refl;
  item = item_of part_of_prior;
  left = refl;
  held = refl;
  fresh = omega arith;
}

abbrev first_result : Invocation → NodeResult
first_result inv =
    (first table table-Laws measures 2 checks complete silent 5 1 6 30 1 31 inv new_cache).0

abbrev later_result : Invocation → NodeResult
later_result inv =
    (second table table-Laws measures 2 checks complete silent 5 1 6 30 1 31 all_sections
      (later_cache inv)).0

answer_reused_example :
    (raw_of (first_result all_sections) ≡ some whole_answer)
    × (raw_of (later_result all_sections) ≡ some whole_answer)
    × (calls_of (later_result all_sections) ≡ some 0)
answer_reused_example =
    answer_reused table table-Laws measures 2 checks complete silent 5 1 6 30 1 31
      "leetcode:two-sum" all_sections all_sections whole_answer good 2 new_cache
      (later_cache all_sections) all_answered refl refl refl

subset_served_as_whole_example :
    (raw_of (later_result part_of) ≡ some whole_answer) × (calls_of (later_result part_of) ≡ some 0)
subset_served_as_whole_example =
    subset_served_as_whole table table-Laws measures 2 checks complete silent 5 1 6 30 1 31
      "leetcode:two-sum" part_of all_sections whole_answer good 2 new_cache (later_cache part_of)
      ("coder" ∷ []) part_answered refl refl refl refl

merged_there :
    filled (some (merged_payload part_of_prior whole_answer))
    ≡ some (merged_payload part_of_prior whole_answer)
unfolding merged_payload merge_llm_payload filter_payload_to_sections
merged_there = refl

not_asked :
    (str_eq "metadata" "teacher"
      || (is_one_of "teacher" top_keys && allows ("coder" ∷ []) "teacher"))
    ≡ false
unfolding allows
not_asked = refl

prior_served_to_others_example :
    (raw_of (later_result part_of_prior) ≡ some (merged_payload part_of_prior whole_answer))
    × (lookup "teacher" (merged_payload part_of_prior whole_answer) ≡ some (text "mine"))
    × (calls_of (later_result part_of_prior) ≡ some 0)
prior_served_to_others_example =
    prior_served_to_others table table-Laws measures 2 checks complete silent 5 1 6 30 1 31
      "leetcode:two-sum" part_of_prior all_sections whole_answer good 2 new_cache
      (later_cache part_of_prior) "coder" [] (("teacher", text "mine") ∷ []) "teacher"
      prior_answered refl refl refl merged_there refl refl not_asked
