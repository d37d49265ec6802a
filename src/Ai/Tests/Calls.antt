-- ===== src/Ai/Tests/Calls.antt =====
-- A call of the model whose service is busy, and the fallback.
use recentthink_ai_be.Common.{
  ℕ, zero, suc, ◌≡◌, refl, String, true, Option, none, some, [], ◌∷◌, Dict,
}
use recentthink_ai_be.Ai.Json.{Json, text, number, array, object, item, last, field, end}
use recentthink_ai_be.Ai.Client.Types.{ClientSettings, Prompt, Completion, Post, replied, Wire}
use recentthink_ai_be.Ai.Client.Reading.{read_dict}
use recentthink_ai_be.Ai.Client.Completion.{
  completed, chat_completion, selected_model, fallback_to, request_completion, try_models,
  post_from,
}
use recentthink_ai_be.Ai.Client.Ending.{Chats, chat_completion_ends}

abbrev settings : ClientSettings
settings = record {
  openrouter_api_key = "k";
  openrouter_model = "deepseek/chat";
  openrouter_fallback_model = "openai/mini";
  openrouter_max_retries = 1;
  openrouter_retry_backoff = 10;
}

abbrev prompt : Prompt
prompt = record {
  system_prompt = "answer in JSON";
  user_prompt = "two sum";
  model = none;
  fallback_model = none;
  temperature = number 0;
  max_tokens = 512;
  top_p = none;
  frequency_penalty = none;
  presence_penalty = none;
  json_mode = true;
}

abbrev answer : Json
answer = object (
    field "choices"
      (array (
        item
          (object (
            field "message" (object (field "content" (text "{}") end))
              (field "finish_reason" (text "stop") end)))
          last))
      (field "usage" (object (field "prompt_tokens" (number 7) end)) end))

-- two posts are too many, the third is answered
abbrev busy_twice : Dict Json → ℕ → Post
busy_twice p zero = replied 429 none
busy_twice p (suc zero) = replied 503 none
busy_twice p (suc (suc n)) = replied 200 (some answer)

abbrev shown : Json → String
shown v = ""

abbrev int_of : String → Option ℕ
int_of s = none

abbrev wire : Wire
wire = record { posts = 0; slept = [] }

abbrev completion : Completion
completion = record {
  response = record {
    content = "{}";
    finish_reason = some "stop";
    prompt_tokens = 7;
    completion_tokens = 0;
  };
  model = "openai/mini";
  provider = "openai";
}

falls_back :
    chat_completion shown int_of busy_twice settings prompt wire
    ≡ (completed completion, record { posts = 3; slept = 10 ∷ [] })
unfolding chat_completion selected_model fallback_to try_models request_completion post_from
    read_dict
falls_back = refl

chat_completion_ends_example :
    Chats shown int_of busy_twice settings prompt wire
      (chat_completion shown int_of busy_twice settings prompt wire)
chat_completion_ends_example =
    chat_completion_ends shown int_of busy_twice settings prompt wire refl
