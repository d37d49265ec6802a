-- ===== src/Gateway/Blocked.antt =====
-- The two services together: the session guard, and what the Auth Service answers and accepts.
use recentthink_ai_be.Common.{ℕ, String, true, false, Option, none, some, ◌≡◌, arith, refl, find}
use recentthink_ai_be.Auth.Model.{User, user_has_id}
use recentthink_ai_be.Auth.Action.{Env, World, Payload, UserState, Claim, ok}
use recentthink_ai_be.Auth.Service.Jwt.{get, is_text, is_falsy, access, claim_text}
use recentthink_ai_be.Auth.Service.Session.{is_stale}
use recentthink_ai_be.Auth.Service.Admin.{block_user}
use recentthink_ai_be.Auth.Service.State.{get_user_state, snapshot}
use recentthink_ai_be.Auth.Access.{get_current_active_user}
use recentthink_ai_be.Auth.Lockout.{block_user_effect}
use recentthink_ai_be.Gateway.Types.{Gate, CachedUserState, denied, passed}
use recentthink_ai_be.Gateway.Header.{extract_bearer}
use recentthink_ai_be.Gateway.Paths.{is_public_path}
use recentthink_ai_be.Gateway.Client.{answer}
use recentthink_ai_be.Gateway.Guard.{
  Config, Incoming, account_blocked, enforce_session, live_state, check_token, pwd_ts_stale,
}

-- the body of the answer to `GET /internal/auth/user-state/{id}`, read back by the client
abbrev pub body : UserState → CachedUserState
body s = record {
  user_id = s.user_id;
  is_active = s.is_active;
  is_blocked = s.is_blocked;
  role = s.role;
  pwd_ts = s.pwd_ts;
}

module _ (env : Env) (w later : World) (i : ℕ) (reason : Option String) where
  state_of_blocked :
      (r : User) (s : UserState)
      → (block_user env i reason w).0 ≡ ok r
      → later.session ≡ (block_user env i reason w).1.db
      → later.cache i ≡ none
      → (get_user_state env i later).0 ≡ ok s
      → s.is_blocked ≡ true
  unfolding get_user_state
  state_of_blocked r s h same dropped e =
      let (_, _, _, _, changed, row, _, _) = block_user_effect env w i reason r h in
      ground (arith, changed, row)

  -- Once a block has returned, an enabled gateway that has a client for the Auth Service refuses
  -- every request to a path that is not public with an access token of the user, if it has no
  -- cached state of the user and the Auth Service, with no cached state either, answers the lookup
  -- from the database as the block left it.
  pub blocked_is_refused :
      (config : Config) (request : Incoming) (g : Gate) (token : String) (p : Payload) (r : User)
      (s : UserState)
      → (block_user env i reason w).0 ≡ ok r
      → later.session ≡ (block_user env i reason w).1.db
      → later.cache i ≡ none
      → (get_user_state env i later).0 ≡ ok s
      → config.guard_enabled ≡ true
      → is_public_path request.path ≡ false
      → extract_bearer request.authorization ≡ some token
      → env.jwt_decode g.wall token ≡ ok p
      → is_text access (get "token_type" p) ≡ true
      → env.parse_uuid (claim_text env (get "user_id" p)) ≡ some i
      → g.store i ≡ none
      → config.has_client ≡ true
      → config.reply i ≡ answer 200 (body s)
      → (enforce_session env config request g).0 ≡ denied account_blocked
  unfolding enforce_session
  blocked_is_refused config request g token p r s h same dropped e on private t d a n miss client
        reply =
      let blocked = state_of_blocked r s h same dropped e in ground (arith, blocked)

-- the gateway's test of the password's instant is the stricter one
is_stale-pwd_ts_stale : (c : Option Claim) (n : ℕ) → pwd_ts_stale c n ≡ false → is_stale c n ≡ false
unfolding pwd_ts_stale is_stale
is_stale-pwd_ts_stale none n h = refl
is_stale-pwd_ts_stale (some (Claim.number k)) n h = h
is_stale-pwd_ts_stale (some (Claim.text t)) n h = refl
is_stale-pwd_ts_stale (some (Claim.boolean b)) n h = refl

module _ (env : Env) (w : World) (config : Config) (request : Incoming) (g : Gate) where
  -- What the enabled gateway forwards on a path that is not public, the Auth Service accepts: if
  -- the token decodes to claims that name the user, the state that the gateway used is that of the
  -- user's row, the two services have the same time and the database answers, then a forwarded
  -- token resolves to that user, active and not blocked.
  pub forwarded_is_accepted :
      (token : String) (p : Payload) (i : ℕ) (u : User)
      → config.guard_enabled ≡ true
      → is_public_path request.path ≡ false
      → extract_bearer request.authorization ≡ some token
      → env.jwt_decode g.wall token ≡ ok p
      → w.now ≡ g.wall
      → is_falsy (get "user_id" p) ≡ false
      → env.parse_uuid (claim_text env (get "user_id" p)) ≡ some i
      → env.fault w.calls ≡ none
      → find (user_has_id i) w.session.users ≡ some u
      → (live_state env config i g).0 ≡ passed (body (snapshot u))
      → (enforce_session env config request g).0 ≡ passed tt
      → (get_current_active_user env token w).0 ≡ ok u
  forwarded_is_accepted token p i u on private t d now named n up f live h =
      let c : (check_token env config token g).0 ≡ passed tt =
        unfold enforce_session in ground arith in
      let a : is_text access (get "token_type" p) ≡ true = unfold check_token in ground arith in
      let b : u.is_blocked ≡ false = unfold check_token snapshot in ground arith in
      let x : u.is_active ≡ true = unfold check_token snapshot in ground arith in
      let y : pwd_ts_stale (get "pwd_ts" p) u.password_changed_at ≡ false =
        unfold check_token snapshot in ground arith in
      let z = is_stale-pwd_ts_stale (get "pwd_ts" p) u.password_changed_at y in
      unfold get_current_active_user in ground arith
