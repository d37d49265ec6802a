-- ===== src/Ai/Generation/Loop.antt =====
-- agents/shared/workflow/nodes.py `openrouter_node` and `apply_llm_response`: the loops that ask the
-- model. `complete n tokens` is the answer to the call after `n` calls, with so many tokens allowed, or
-- nothing if `chat_completion` raises; the other arguments of a call are the same in each.
use recentthink_ai_be.Common.{
  ℕ, zero, suc, true, false, Option, none, some, List, Dict, not, ◌==◌, String,
}
use recentthink_ai_be.Ai.Json.{Json}
use recentthink_ai_be.Ai.Generation.Types.{Response, Checks, Failure, accept, again, give_up, judge}

pub data Outcome : Type 0 where
  generated : Dict Json → Response → Outcome
  failed : Option Failure → Outcome
  raised : Outcome

module _ (checks : Checks) (complete : ℕ → ℕ → Option Response)
    (requested : Option (List String)) where
  -- `openrouter_node` with so many attempts left: the outcome and the number of calls
  unfoldable pub generate_from : ℕ → ℕ → ℕ → Option Failure → Outcome × ℕ
  generate_from zero calls tokens last_error = (failed last_error, calls)
  generate_from (suc left) calls tokens last_error = elim (complete calls tokens) [
    | none ↦ (raised, suc calls)
    | some r ↦ elim (judge checks true requested (not (left == 0)) tokens r) [
      | accept payload ↦ (generated payload r, suc calls)
      | again error tokens' ↦ generate_from left (suc calls) tokens' (some error)
      | give_up error ↦ (failed (some error), suc calls)
    ]
  ]

  unfoldable pub generate : ℕ → ℕ → Outcome × ℕ
  unfolding generate_from
  generate max_retries max_tokens = generate_from (suc max_retries) 0 max_tokens none

  -- `apply_llm_response`, given an answer that was streamed, with so many attempts left after it. The
  -- number of tokens stays as it is.
  unfoldable pub apply_from : ℕ → ℕ → ℕ → Response → Outcome × ℕ
  apply_from zero calls tokens r = elim (judge checks false requested false tokens r) [
    | accept payload ↦ (generated payload r, calls)
    | again error tokens' ↦ (failed (some error), calls)
    | give_up error ↦ (failed (some error), calls)
  ]
  apply_from (suc left) calls tokens r = elim (judge checks false requested true tokens r) [
    | accept payload ↦ (generated payload r, calls)
    | again error tokens' ↦ elim (complete calls tokens) [
      | none ↦ (raised, suc calls)
      | some r' ↦ apply_from left (suc calls) tokens r'
    ]
    | give_up error ↦ (failed (some error), calls)
  ]
