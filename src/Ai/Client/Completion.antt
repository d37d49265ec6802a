-- ===== src/Ai/Client/Completion.antt =====
-- clients/openrouter.py `chat_completion` and `_request_completion`: the posts for one model, with retries,
-- and the model that is asked when the first fails. `post payload n` is what the post after `n` posts brings.
use recentthink_ai_be.Common.{
  ℕ, zero, suc, ◌+◌, ◌*◌, ◌^◌, String, Bool, true, false, Option, none, some, List, [], ◌∷◌, ◌++◌,
  Dict, str_eq, not, ◌&&◌, ltb, if◌then◌else◌,
}
use recentthink_ai_be.Ai.Json.{Json}
use recentthink_ai_be.Ai.Client.Types.{
  ClientSettings, Prompt, Completion, Post, replied, broken, crashed, ClientError, not_configured,
  http_error, other_error, undecodable, unreadable, unreached, http_status, Wire, retryable_status,
  is_success, payload,
}
use recentthink_ai_be.Ai.Client.Reading.{read_completion}

pub data Result : Type 0 where
  completed : Completion → Result
  raised : ClientError → Result

-- what the loop leaves: the data, or the exception that it raises
pub data Received : Type 0 where
  received : Json → Received
  refused : ClientError → Received

-- is the exception of a post caught for another attempt?
unfoldable pub is_retryable : Post → Bool
unfolding retryable_status
is_retryable (replied status body) = retryable_status status
is_retryable broken = true
is_retryable crashed = false

abbrev decoded : Option Json → Received
decoded none = refused undecodable
decoded (some v) = received v

-- `response.raise_for_status()`, `response.json()`
unfoldable pub received_of : Post → Received
received_of (replied status body) =
    if is_success status then decoded body else refused (http_status status)
received_of broken = refused http_error
received_of crashed = refused other_error

-- a post, counted, and a wait
abbrev pub posted : Wire → Wire
posted w = record w { posts = w.posts + 1 }

abbrev pub pause : ℕ → Wire → Wire
pause d w = record w { slept = w.slept ++ d ∷ [] }

module _ (reply : ℕ → Post) (max_retries backoff : ℕ) where
  -- the `for` loop, of which `left` rounds are left
  unfoldable pub post_from : ℕ → ℕ → Wire → Received × Wire
  unfolding is_retryable received_of
  post_from zero attempt w = (refused unreached, w)
  post_from (suc left) attempt w =
      let rest = post_from left (attempt + 1) (pause (backoff * 2 ^ attempt) (posted w)) in
      if is_retryable (reply w.posts) && ltb attempt max_retries
      then rest
      else (received_of (reply w.posts), posted w)

-- `value or default`, of texts
abbrev or_text : Option String → String → String
or_text none default = default
or_text (some s) default = if str_eq s "" then default else s

unfoldable pub selected_model : ClientSettings → Prompt → String
selected_model s p = or_text p.model s.openrouter_model

-- the fallback, if it is given and another model
unfoldable pub fallback_to : ClientSettings → Prompt → Option String
unfolding selected_model
fallback_to s p =
    let fallback = or_text p.fallback_model s.openrouter_fallback_model in
    if not (str_eq fallback "") && not (str_eq fallback (selected_model s p))
    then some fallback
    else none

module _ (shown : Json → String) (int_of : String → Option ℕ) (post : Dict Json → ℕ → Post)
    (s : ClientSettings) (p : Prompt) where
  unfoldable pub result_of : String → Received → Result
  result_of model (refused e) = raised e
  result_of model (received body) = elim (read_completion shown int_of model body) [
    | none ↦ raised unreadable
    | some c ↦ completed c
  ]

  -- `_request_completion`
  unfoldable pub request_completion : String → Wire → Result × Wire
  unfolding payload post_from result_of
  request_completion model w =
      let (r, w') =
        post_from (post (payload p model)) s.openrouter_max_retries s.openrouter_retry_backoff
          (suc s.openrouter_max_retries) 0 w in
      (result_of model r, w')

  -- the loop over the models
  unfoldable pub try_models : List String → Wire → Result × Wire
  unfolding request_completion
  try_models [] w = (raised unreached, w)
  try_models (model ∷ []) w = request_completion model w
  try_models (model ∷ next ∷ models) w =
      let (r, w') = request_completion model w in
      elim r [ completed c ↦ (completed c, w') | raised e ↦ try_models (next ∷ models) w' ]

  abbrev pub models_to_try : List String
  models_to_try =
      selected_model s p ∷ elim (fallback_to s p) [ none ↦ [] | some fallback ↦ fallback ∷ [] ]

  unfoldable pub chat_completion : Wire → Result × Wire
  unfolding selected_model fallback_to try_models
  chat_completion w =
      if str_eq s.openrouter_api_key ""
      then (raised not_configured, w)
      else try_models models_to_try w
