-- ===== src/Gateway/Tests.antt =====
-- Requests of a user with a token, before and after the account is blocked.
use recentthink_ai_be.Common.{
  ℕ, [], ◌∷◌, ◌+◌, true, false, none, some, ◌≡◌, ◌≢◌, ◌↔◌, arith, refl, ltb, if◌then◌else◌,
}
use recentthink_ai_be.Auth.Model.{User, Role}
use recentthink_ai_be.Auth.Action.{World, Payload, UserState, ok}
use recentthink_ai_be.Auth.Service.Jwt.{get, is_text, is_falsy, claim_text, access_claims}
use recentthink_ai_be.Auth.Service.Admin.{block_user}
use recentthink_ai_be.Auth.Service.State.{get_user_state, snapshot}
use recentthink_ai_be.Auth.Access.{get_current_active_user}
use recentthink_ai_be.Auth.Tests.Data.{env, world, alice}
use recentthink_ai_be.Gateway.Types.{Gate, CachedUserState, Verdict, denied, passed}
use recentthink_ai_be.Gateway.Header.{extract_bearer}
use recentthink_ai_be.Common.Texts.{is_space}
use recentthink_ai_be.Gateway.Scheme.{IsSolid, header, extract_bearer-header}
use recentthink_ai_be.Gateway.Paths.{is_public_path}
use recentthink_ai_be.Gateway.Cache.{get_cached, set_cached}
use recentthink_ai_be.Gateway.Client.{answer, no_answer}
use recentthink_ai_be.Gateway.Guard.{Config, Incoming, account_blocked, enforce_session, live_state}
use recentthink_ai_be.Gateway.Admission.{IsAdmitted, enforce_iff}
use recentthink_ai_be.Gateway.Staleness.{
  Event, config_at, gate_at, after, IsRecent, forwarded_on_fresh_state,
}
use recentthink_ai_be.Gateway.Blocked.{body, blocked_is_refused, forwarded_is_accepted}
mod Forwards

abbrev pub state : CachedUserState
state = record { user_id = 0; is_active = true; is_blocked = false; role = "USER"; pwd_ts = 5 }

abbrev pub gate : Gate
gate = record { wall = 20; clock = 7; store = λ _. none }

abbrev pub config : Config
config = record {
  guard_enabled = true;
  cache_ttl = 30;
  has_client = true;
  reply = λ _. answer 200 state;
}

abbrev pub request : Incoming
request = record { path = "/ai/chat"; authorization = some "Bearer  minted " }

private_path : is_public_path "/ai/chat" ≡ false
unfolding is_public_path
private_path = refl

has_token : extract_bearer (some "Bearer  minted ") ≡ some "minted"
unfolding extract_bearer
has_token = refl

enforce_iff_example :
    ((enforce_session env config request gate).0 ≡ passed tt) ↔ IsAdmitted env config gate "minted"
enforce_iff_example = enforce_iff env config gate request "minted" refl private_path has_token

forwarded : (enforce_session env config request gate).0 ≡ passed tt
unfolding enforce_session access_claims
forwarded = refl

-- the Auth Service answers once, and not again
abbrev answered_once : Event
answered_once = record { wall = 20; clock = 100; reply = λ _. answer 200 state; request = request }

abbrev unanswered : ℕ → Event
unanswered clock = record { wall = 20; clock = clock; reply = λ _. no_answer; request = request }

-- the outcome of the second of two requests
abbrev second_at : ℕ → Verdict (Unit {0})
second_at clock =
    (enforce_session env (config_at env config (unanswered clock)) request
      (gate_at env config (unanswered clock) (after env config (answered_once ∷ [])))).0

still_cached : second_at 129 ≡ passed tt
unfolding enforce_session access_claims
still_cached = refl

has_expired :
    second_at 130
    ≡ denied (record {
      status = 503;
      detail = "Auth Service unavailable for session check.";
      code = none;
    })
unfolding enforce_session access_claims
has_expired = refl

forwarded_on_fresh_state_example :
    (a : IsAdmitted env
      (config_at env config (unanswered 129))
      (gate_at env config (unanswered 129) (after env config (answered_once ∷ [])))
      "minted")
    × IsRecent env config (answered_once ∷ []) (unanswered 129) a.user_id a.state
forwarded_on_fresh_state_example =
    forwarded_on_fresh_state env config (answered_once ∷ []) (unanswered 129) "minted" refl
      private_path has_token still_cached

abbrev blocked : User
blocked = record alice { is_blocked = true; blocked_at = some 20 }

abbrev after_block : World
after_block = let w = (block_user env 0 none world).1 in record w { session = w.db }

block_returns : (block_user env 0 none world).0 ≡ ok blocked
unfolding block_user
block_returns = refl

abbrev blocked_state : UserState
blocked_state = record {
  user_id = 0;
  is_active = true;
  is_blocked = true;
  role = "USER";
  pwd_ts = 5;
}

answers : (get_user_state env 0 after_block).0 ≡ ok blocked_state
unfolding get_user_state block_user
answers = refl

dropped : after_block.cache 0 ≡ none
unfolding block_user
dropped = refl

abbrev alice_claims : Payload
alice_claims = access_claims env 0 "alice@x" Role.user 5 true 20 10

alice_access : is_text "access" (get "token_type" alice_claims) ≡ true
unfolding access_claims get is_text
alice_access = refl

alice_named : env.parse_uuid (claim_text env (get "user_id" alice_claims)) ≡ some 0
unfolding access_claims get claim_text
alice_named = refl

alice_not_falsy : is_falsy (get "user_id" alice_claims) ≡ false
unfolding access_claims get is_falsy
alice_not_falsy = refl

alice_decodes : env.jwt_decode 20 "minted" ≡ ok alice_claims
unfolding access_claims
alice_decodes = refl

abbrev config_after : Config
config_after = record config { reply = λ _. answer 200 (body blocked_state) }

blocked_is_refused_example :
    (enforce_session env config_after request gate).0 ≡ denied account_blocked
blocked_is_refused_example =
    blocked_is_refused env world after_block 0 none config_after request gate "minted" alice_claims
      blocked blocked_state block_returns refl dropped answers refl private_path has_token
      alice_decodes alice_access alice_named refl refl refl

live : (live_state env config 0 gate).0 ≡ passed (body (snapshot alice))
unfolding live_state snapshot
live = refl

forwarded_is_accepted_example : (get_current_active_user env "minted" world).0 ≡ ok alice
forwarded_is_accepted_example =
    forwarded_is_accepted env world config request gate "minted" alice_claims 0 alice refl
      private_path has_token alice_decodes refl alice_not_falsy alice_named refl refl live forwarded
