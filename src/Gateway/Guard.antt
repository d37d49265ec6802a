-- ===== src/Gateway/Guard.antt =====
-- auth/session_guard.py
use recentthink_ai_be.Common.{
  ℕ, String, Bool, Option, none, some, ◌==◌, ltb, not, str_eq, if◌then◌else◌,
}
use recentthink_ai_be.Auth.Action.{Env, Payload, Claim, Result, ok, err, expired_token}
use recentthink_ai_be.Auth.Service.Jwt.{get, is_text, is_falsy, access, claim_text}
use recentthink_ai_be.Gateway.Types.{
  Response, CachedUserState, Gate, Verdict, denied, passed, Check, pure, gets, or_deny, deny_if,
  ◌>>=◌, ◌>>◌,
}
use recentthink_ai_be.Gateway.Header.{extract_bearer}
use recentthink_ai_be.Gateway.Paths.{is_public_path}
use recentthink_ai_be.Gateway.Cache.{get_cached, set_cached}
use recentthink_ai_be.Gateway.Client.{Reply, Lookup, lookup_error, found, fetch_user_state}

-- the settings, whether the application has a client for the Auth Service, and what that answers
pub record Config : Type 0 where
  pub guard_enabled : Bool
  pub cache_ttl : ℕ
  pub has_client : Bool
  pub reply : ℕ → Reply

-- the parts of a request that the guard reads
pub record Incoming : Type 0 where
  pub path : String
  pub authorization : Option String

abbrev pub unauthorized : String → Response
unauthorized detail = record { status = 401; detail = detail; code = none }

abbrev pub unavailable : String → Response
unavailable detail = record { status = 503; detail = detail; code = none }

abbrev pub account_blocked : Response
account_blocked = record {
  status = 403;
  detail = "Your account has been blocked.";
  code = some "ACCOUNT_BLOCKED";
}

abbrev pub account_disabled : Response
account_disabled = record { status = 403; detail = "Your account has been disabled."; code = none }

-- `_pwd_ts_stale`
unfoldable pub pwd_ts_stale : Option Claim → ℕ → Bool
pwd_ts_stale (some (Claim.number n)) current = ltb n current
pwd_ts_stale _ current = not (current == 0)

-- the answers to a failed verification of the token, and to a failed lookup
abbrev pub verified : Result Payload → Check Payload
verified (ok payload) g = (passed payload, g)
verified (err expired_token) g = (denied (unauthorized "Token has expired."), g)
verified (err _) g = (denied (unauthorized "Invalid token."), g)

abbrev pub looked_up : Lookup → Check CachedUserState
looked_up (found state) g = (passed state, g)
looked_up (lookup_error code detail) g =
    (denied (if code == 401 then unauthorized "Invalid token." else unavailable detail), g)

module _ (env : Env) (config : Config) where
  -- `str(payload.get("role") or "")`
  unfoldable pub token_role : Payload → String
  unfolding get is_falsy claim_text
  token_role payload =
      if is_falsy (get "role" payload) then "" else claim_text env (get "role" payload)

  -- `_evaluate_state`
  unfoldable pub evaluate_state : Payload → CachedUserState → Check (Unit {0})
  unfolding token_role get pwd_ts_stale
  evaluate_state payload state = do
    deny_if state.is_blocked account_blocked
    deny_if (not state.is_active) account_disabled
    deny_if (not (str_eq (token_role payload) state.role)) (unauthorized "Invalid token.")
    deny_if (pwd_ts_stale (get "pwd_ts" payload) state.pwd_ts)
        (unauthorized "Session expired due to a password change. Please log in again.")

  -- the state from the Auth Service, which is then cached
  unfoldable pub fetch_state : ℕ → Check CachedUserState
  unfolding fetch_user_state set_cached
  fetch_state user_id = do
    deny_if (not config.has_client) (unavailable "Session check unavailable.")
    state ← looked_up (fetch_user_state (config.reply user_id))
    λ g. (passed state, set_cached state config.cache_ttl g)

  abbrev pub cached_or : Option CachedUserState → Check CachedUserState → Check CachedUserState
  cached_or (some state) fetch g = (passed state, g)
  cached_or none fetch g = fetch g

  unfoldable pub live_state : ℕ → Check CachedUserState
  unfolding get_cached fetch_state
  live_state user_id g =
      let (cached, g') = get_cached user_id g in cached_or cached (fetch_state user_id) g'

  -- `enforce_session` once there is a token
  unfoldable pub check_token : String → Check (Unit {0})
  unfolding get is_text claim_text live_state evaluate_state
  check_token token = do
    wall ← gets (λ g. g.wall)
    payload ← verified (env.jwt_decode wall token)
    deny_if (not (is_text access (get "token_type" payload))) (unauthorized "Invalid token type.")
    user_id ←
        or_deny (env.parse_uuid (claim_text env (get "user_id" payload)))
          (unauthorized "Invalid token.")
    state ← live_state user_id
    evaluate_state payload state

  unfoldable pub check_header : Option String → Check (Unit {0})
  unfolding check_token
  check_header none = pure tt
  check_header (some token) = check_token token

  -- a response that refuses the request, or nothing to forward it
  unfoldable pub enforce_session : Incoming → Gate → Verdict (Unit {0}) × Gate
  unfolding is_public_path extract_bearer check_header
  enforce_session request =
      if not config.guard_enabled
      then pure tt
      else if is_public_path request.path
      then pure tt
      else check_header (extract_bearer request.authorization)
