-- ===== src/Gateway/Client.antt =====
-- auth/user_state_client.py; the answer of the Auth Service is a parameter.
use recentthink_ai_be.Common.{ℕ, String, ◌==◌, leb, ◌||◌, if◌then◌else◌}
use recentthink_ai_be.Gateway.Types.{CachedUserState}

-- no answer (`httpx.HTTPError`), or a status with the fields of a body
pub data Reply : Type 0 where
  no_answer : Reply
  answer : ℕ → CachedUserState → Reply

-- `UserStateLookupError`, or the state
pub data Lookup : Type 0 where
  lookup_error : ℕ → String → Lookup
  found : CachedUserState → Lookup

unfoldable pub fetch_user_state : Reply → Lookup
fetch_user_state no_answer = lookup_error 503 "Auth Service unavailable for session check."
fetch_user_state (answer status body) =
    if status == 404
    then lookup_error 401 "User not found."
    else if status == 401 || status == 403
    then lookup_error 503 "Internal session check unauthorized."
    else if leb 400 status
    then lookup_error 503 "Auth Service rejected session check."
    else found body
