-- ===== src/Ai/Client/Types.antt =====
-- clients/openrouter.py: the settings of the client, what it is asked for, what it posts, and what a post
-- brings. A fraction is the value of `json` that is sent for it.
use recentthink_ai_be.Common.{
  ℕ, String, Bool, Option, none, some, List, [], ◌∷◌, Dict, insert, ◌==◌, ◌||◌, ◌&&◌, leb, ltb,
  if◌then◌else◌,
}
use recentthink_ai_be.Ai.Json.{Json, text, number, array, object, item, last, field, end}
use recentthink_ai_be.Ai.Generation.Types.{Response}

-- of `Settings` and `AIServiceSettings`; the base of the wait before a retry is in some unit of time
pub record ClientSettings : Type 0 where
  pub openrouter_api_key : String
  pub openrouter_model : String
  pub openrouter_fallback_model : String
  pub openrouter_max_retries : ℕ
  pub openrouter_retry_backoff : ℕ

-- the arguments of `chat_completion`
pub record Prompt : Type 0 where
  pub system_prompt : String
  pub user_prompt : String
  pub model : Option String
  pub fallback_model : Option String
  pub temperature : Json
  pub max_tokens : ℕ
  pub top_p : Option Json
  pub frequency_penalty : Option Json
  pub presence_penalty : Option Json
  pub json_mode : Bool

-- `LLMResponse`, with the texts that Response leaves out
pub record Completion : Type 0 where
  pub response : Response
  pub model : String
  pub provider : String

-- What a post brings: a status and the body, if it is JSON; an `httpx.HTTPError` without a response, as a
-- timeout is; or another exception.
pub data Post : Type 0 where
  replied : ℕ → Option Json → Post
  broken : Post
  crashed : Post

-- what a call of the client raises
pub data ClientError : Type 0 where
  not_configured http_error other_error undecodable unreadable unreached : ClientError
  http_status : ℕ → ClientError

-- the connection: how many posts were made, and the waits between them
pub record Wire : Type 0 where
  pub posts : ℕ
  pub slept : List ℕ

-- `_RETRYABLE_STATUS_CODES`
unfoldable pub retryable_status : ℕ → Bool
retryable_status code =
    code == 408 || code == 429 || code == 500 || code == 502 || code == 503 || code == 504

-- `raise_for_status` passes these
abbrev pub is_success : ℕ → Bool
is_success code = leb 200 code && ltb code 300

abbrev message : String → String → Json
message role content = object (field "role" (text role) (field "content" (text content) end))

abbrev insert_given : String → Option Json → Dict Json → Dict Json
insert_given key none d = d
insert_given key (some value) d = insert key value d

-- the payload of a post
unfoldable pub payload : Prompt → String → Dict Json
payload p model =
    let start =
      ("model", text model)
      ∷ (
        "messages",
        array (item (message "system" p.system_prompt) (item (message "user" p.user_prompt) last)),
      )
      ∷ ("temperature", p.temperature)
      ∷ ("max_tokens", number p.max_tokens)
      ∷ [] in
    let given =
      insert_given "presence_penalty" p.presence_penalty (
        insert_given "frequency_penalty" p.frequency_penalty
          (insert_given "top_p" p.top_p start)) in
    if p.json_mode
    then insert "response_format" (object (field "type" (text "json_object") end)) given
    else given
