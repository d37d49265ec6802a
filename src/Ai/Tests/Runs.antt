-- ===== src/Ai/Tests/Runs.antt =====
-- Runs of the modules after an answer, and keys of the cache.
use recentthink_ai_be.Common.{
  zero, suc, ◌++◌, ℕ, ◌*◌, ◌/◌, ◌≡◌, ◌⊎◌, refl, String, Bool, true, false, Option, none, some, [],
  ◌∷◌, Dict, arith, ◌==◌, if◌then◌else◌,
}
use recentthink_ai_be.Ai.Json.{Json, text, object, field, end}
use recentthink_ai_be.Ai.Tokens.{resolve_feature_max_tokens, engine_tokens}
use recentthink_ai_be.Ai.Cache.Segments.{
  normalize_segment, build_leetcode_key, build_hackerrank_key, build_dsa_key,
}
use recentthink_ai_be.Ai.Cache.Distinct.{keys_distinct, SameSegments, Collision}
use recentthink_ai_be.Ai.Workflow.Types.{
  Processor, teacher, coder, code_explainer, evaluator, in_progress, WorkState,
}
use recentthink_ai_be.Ai.Workflow.Messages.{
  Write, stored, unread, is_committed, Messages, user, assistant,
}
use recentthink_ai_be.Ai.Workflow.Modules.{Formatted, run_module}
use recentthink_ai_be.Ai.Workflow.Pipeline.{
  run_post_llm_pipeline, persist, pipeline_modules, modules_for,
}
use recentthink_ai_be.Ai.Workflow.Stream.{planned, streamed, cancelled, execute_stream}
use recentthink_ai_be.Ai.Workflow.Streaming.{stream_cancel_restores}
use recentthink_ai_be.Ai.Workflow.Completion.{pipeline_accounts}
use recentthink_ai_be.Ai.Workflow.Accounting.{Adds}

-- the coder raises
abbrev formatted : Processor → Dict Json → Option Formatted
formatted coder payload = none
formatted teacher payload = some (record { content = "think"; structured = some payload })
formatted code_explainer payload = some (record { content = "line by line"; structured = none })
formatted evaluator payload = some (record { content = "fast"; structured = none })

abbrev start : WorkState
start = record {
  modules_to_run = teacher ∷ coder ∷ evaluator ∷ [];
  planner_output = [];
  llm_raw = ("teacher", object (field "approach" (text "sort") end)) ∷ [];
  teacher_output = none;
  coder_output = none;
  code_explainer_output = none;
  evaluator_output = none;
  module_responses = [];
  errors = [];
  status = in_progress;
  cancelled = false;
}

abbrev chat : Messages
chat = record {
  rows =
      record { id = 0; role = user }
      ∷ record { id = 1; role = assistant }
      ∷ record { id = 2; role = user }
      ∷ [];
  next = 3;
  commits = 0;
}

abbrev never : ℕ → Bool
never check = false

-- the teacher's message is stored but cannot be read again
abbrev writes : ℕ → Write
writes zero = stored
writes (suc zero) = unread
writes (suc (suc n)) = stored

writes_work : (i : ℕ) → is_committed (writes i) ≡ true
writes_work zero = refl
writes_work (suc zero) = refl
writes_work (suc (suc n)) = refl

-- the stream is cancelled after the coder
abbrev before_explainer : ℕ → Bool
before_explainer check = check == 4

stream_was_cancelled :
    (execute_stream formatted writes true true before_explainer planned (streamed start) chat).0
    ≡ cancelled
unfolding execute_stream
stream_was_cancelled = refl

stream_cancel_restores_example :
    (execute_stream formatted writes true true before_explainer planned
      (streamed start)
      chat).1.rows
    ≡ chat.rows ++ record { id = 3; role = user } ∷ []
stream_cancel_restores_example =
    stream_cancel_restores formatted writes writes_work true true before_explainer planned
      (streamed start) chat (omega arith, (omega arith, (omega arith, tt))) (omega arith) refl
      stream_was_cancelled

was_not :
    (run_post_llm_pipeline formatted (λ i. stored) true never [] start chat).0.cancelled ≡ false
unfolding run_post_llm_pipeline persist run_module
was_not = refl

pipeline_accounts_example :
    Adds true pipeline_modules start
      (run_post_llm_pipeline formatted (λ i. stored) true never [] start chat).0
pipeline_accounts_example =
    pipeline_accounts formatted (λ i. stored) true never [] start chat was_not

-- only the teacher runs for a nested section
chosen : modules_for (teacher ∷ coder ∷ evaluator ∷ []) (some ("quiz" ∷ [])) ≡ teacher ∷ []
unfolding modules_for
chosen = refl

abbrev scaled : ℕ → ℕ → ℕ
scaled base n = if n == 1 then base / 4 else base * n / 6

-- for the model, 2048 of the 8192 tokens become 512
five_hundred : engine_tokens scaled "dsa" none (some ("quiz" ∷ [])) none ≡ 512
unfolding engine_tokens resolve_feature_max_tokens
five_hundred = refl

abbrev one_digest : String → String
one_digest s = "d1"

key : build_leetcode_key one_digest "Deepseek/Chat " "v1" "Two Sum!!" ≡ "leetcode:d1"
unfolding build_leetcode_key
key = refl

segment : normalize_segment one_digest " Two  Sum!! " ≡ "two-sum"
unfolding normalize_segment
segment = refl

keys_distinct_example :
    (build_leetcode_key one_digest "m" "v1" "Two Sum"
        ≡ build_leetcode_key one_digest "m" "v1" "two-sum"
      → SameSegments one_digest (λ s. refl) "m" "v1" "Two Sum" "m" "v1" "two-sum"
        ⊎ Collision one_digest (λ s. refl) "m" "v1" "Two Sum" "m" "v1" "two-sum")
    × (build_hackerrank_key one_digest "m" "v1" "Two Sum"
          ≡ build_hackerrank_key one_digest "m" "v1" "two-sum"
        → SameSegments one_digest (λ s. refl) "m" "v1" "Two Sum" "m" "v1" "two-sum"
          ⊎ Collision one_digest (λ s. refl) "m" "v1" "Two Sum" "m" "v1" "two-sum")
    × (build_dsa_key one_digest "m" "v1" "Two Sum" ≡ build_dsa_key one_digest "m" "v1" "two-sum"
        → SameSegments one_digest (λ s. refl) "m" "v1" "Two Sum" "m" "v1" "two-sum"
          ⊎ Collision one_digest (λ s. refl) "m" "v1" "Two Sum" "m" "v1" "two-sum")
keys_distinct_example = keys_distinct one_digest (λ s. refl) "m" "v1" "Two Sum" "m" "v1" "two-sum"
