-- ===== src/Ai/Generation/Types.antt =====
-- clients/openrouter.py `LLMResponse`, and what agents/shared/workflow/nodes.py makes of one answer. The
-- validation of a text, the normalization of a payload and the tests for emptiness are parameters.
use Prim.Native.Char.{code}
use recentthink_ai_be.Common.{
  ℕ, ◌+◌, String, Bool, true, false, Option, none, some, List, Dict, ◌&&◌, ◌||◌, not, ◌==◌,
  if◌then◌else◌,
}
use recentthink_ai_be.Common.Texts.{strip, drop_space_end, is_lower_of}
use recentthink_ai_be.Ai.Json.{Json}
use recentthink_ai_be.Ai.Sections.{is_requested}
use recentthink_ai_be.Ai.Tokens.{more_tokens}

pub record Response : Type 0 where
  pub content : String
  pub finish_reason : Option String
  pub prompt_tokens : ℕ
  pub completion_tokens : ℕ

unfoldable pub total_tokens : Response → ℕ
total_tokens r = r.prompt_tokens + r.completion_tokens

abbrev pub text_or_empty : Option String → String
text_or_empty none = ""
text_or_empty (some s) = s

unfoldable pub truncated : Response → Bool
unfolding strip is_lower_of
truncated r =
    let reason = strip (text_or_empty r.finish_reason) in
    is_lower_of reason "length" || is_lower_of reason "max_tokens" || is_lower_of reason "truncated"

-- `text.endswith("}")`
unfoldable pub ends_in_brace : String → Bool
ends_in_brace String.[] = false
ends_in_brace (String.◌∷◌ c String.[]) = code c == 125
ends_in_brace (String.◌∷◌ c (String.◌∷◌ d ds)) = ends_in_brace (String.◌∷◌ d ds)

unfoldable pub cut_off : Response → Bool
unfolding truncated drop_space_end ends_in_brace
cut_off r = truncated r || not (ends_in_brace (drop_space_end r.content))

-- what `JSONValidator.validate` finds: the payload, or the error
pub data Validation : Type 0 where
  valid : Dict Json → Validation
  invalid : String → Validation

pub record Checks : Type 0 where
  pub validate : String → Validation
  pub normalize : Dict Json → Dict Json
  pub is_llm_response_empty : Dict Json → Bool
  pub feature_payload_missing_content : Dict Json → Bool

-- the last error
pub data Failure : Type 0 where
  invalid_json : String → Failure
  likely_truncated : String → ℕ → Failure
  empty_feature : Failure
  empty_answer : Failure

-- what becomes of an answer: it is taken, or there is another attempt with so many tokens, or none
pub data Verdict : Type 0 where
  accept : Dict Json → Verdict
  again : Failure → ℕ → Verdict
  give_up : Failure → Verdict

module _ (checks : Checks) where
  abbrev pub empty_verdict : Dict Json → Failure
  empty_verdict payload =
      if checks.feature_payload_missing_content payload then empty_feature else empty_answer

  -- a payload, with whether another attempt is allowed
  unfoldable pub judge_payload : Option (List String) → Bool → ℕ → Dict Json → Verdict
  judge_payload (some sections) more tokens payload = accept payload
  judge_payload none more tokens payload =
      if (checks.is_llm_response_empty payload || checks.feature_payload_missing_content payload)
        && more
      then again (empty_verdict payload) tokens
      else if checks.feature_payload_missing_content payload
      then give_up empty_feature
      else accept payload

  abbrev pub judge_invalid : Bool → ℕ → String → Verdict
  judge_invalid true tokens error =
      again (likely_truncated error (more_tokens tokens)) (more_tokens tokens)
  judge_invalid false tokens error = again (invalid_json error) tokens

  -- a verdict, for a loop whose tokens grow or one whose tokens do not
  unfoldable pub judge : Bool → Option (List String) → Bool → ℕ → Response → Verdict
  unfolding judge_payload cut_off
  judge grows requested more tokens r = elim (checks.validate r.content) [
    | valid parsed ↦ judge_payload (is_requested requested) more tokens (checks.normalize parsed)
    | invalid error ↦ judge_invalid (grows && cut_off r) tokens error
  ]
