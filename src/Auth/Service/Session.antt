-- ===== src/Auth/Service/Session.antt =====
-- services/auth_service.py and services/admin_auth_service.py
use recentthink_ai_be.Common.{
  ℕ, ◌+◌, String, Bool, true, false, Option, none, some, List, [], ◌∷◌, ◌||◌, not, leb, ltb,
  if◌then◌else◌,
}
use recentthink_ai_be.Auth.Model.{Role, super_admin, admin, user, role_eq, User, RefreshToken}
use recentthink_ai_be.Auth.Action.{
  Env, Action, Result, ok, err, Claim, pure, raise, raise_if, gets, or_raise, ◌>>=◌, ◌>>◌,
  draw_token, hash_password, invalid_credentials, forbidden, blocked_user, inactive_user,
  user_not_found, invalid_token, expired_token, revoked_token, email_delivery, value_error,
}
use recentthink_ai_be.Auth.Repo.Users.{create_user, get_user_by_id, get_user_by_email}
use recentthink_ai_be.Auth.Repo.Refresh.{
  create_refresh_token, get_by_token_hash, rotate_token, revoke_token, revoke_all_tokens,
}
use recentthink_ai_be.Auth.Service.Jwt.{
  get, is_text, is_falsy, access, claim_text, create_access_token, verify_token,
}
use recentthink_ai_be.Auth.Service.Verification.{send_verification_email}

-- `user.role in roles`
unfoldable pub has_role : List Role → Role → Bool
has_role [] r = false
has_role (q ∷ qs) r = role_eq r q || has_role qs r

-- `required_roles is not None and user.role not in required_roles`
unfoldable pub lacks_role : Option (List Role) → Role → Bool
unfolding has_role
lacks_role none r = false
lacks_role (some roles) r = not (has_role roles r)

-- `AuthService._ensure_account_accessible`
unfoldable pub ensure_account_accessible : User → Action (Unit {0})
ensure_account_accessible u = do
  raise_if u.is_blocked blocked_user
  raise_if (not u.is_active) inactive_user

-- `AuthService._reject_if_stale`: is the token older than the last change of the password?
unfoldable pub is_stale : Option Claim → ℕ → Bool
is_stale (some (Claim.number pwd_ts)) current = ltb pwd_ts current
is_stale _ current = false

-- `except EmailDeliveryError: pass`
abbrev pub ignore_delivery_with : Result (Unit {0}) → Action (Unit {0})
ignore_delivery_with (err email_delivery) w = (ok tt, w)
ignore_delivery_with r w = (r, w)

abbrev pub ignore_delivery : Action (Unit {0}) → Action (Unit {0})
ignore_delivery m w = let (r, w') = m w in ignore_delivery_with r w'

-- the tokens of a session: access and refresh
abbrev pub Tokens : Type 0
Tokens = String × String

module _ (env : Env) where
  -- `PasswordService.verify` on the user that was found
  unfoldable pub credentials_match : Option User → String → Bool
  credentials_match none password = false
  credentials_match (some u) password = env.checkpw password u.password_hash

  unfoldable pub register : String → String → String → String → Action User
  unfolding hash_password create_user send_verification_email
  register first_name last_name email password = do
    password_hash ← hash_password env password
    u ← create_user env first_name last_name email password_hash user false true
    ignore_delivery (send_verification_email env u)
    pure u

  unfoldable pub login : String → String → Option (List Role) → Action (Tokens × User)
  unfolding get_user_by_email credentials_match lacks_role ensure_account_accessible
      create_access_token draw_token create_refresh_token
  login email password required_roles = do
    found ← get_user_by_email env email
    raise_if (not (credentials_match found password)) invalid_credentials
    u ← or_raise found invalid_credentials
    raise_if (lacks_role required_roles u.role) forbidden
    ensure_account_accessible u
    access_token ← create_access_token env u.id u.email u.role u.password_changed_at u.is_verified
    raw ← draw_token env
    now ← gets (λ w. w.now)
    _ ←
        create_refresh_token env u.id (env.sha256 raw) (now + env.settings.refresh_token_lifetime)
          false
    pure ((access_token, raw), u)

  -- a revoked token is presented again: end every session of its user
  unfoldable pub reject_reuse : RefreshToken → Action (Unit {0})
  unfolding revoke_all_tokens
  reject_reuse stored =
      if stored.is_revoked
      then (do _ ← revoke_all_tokens env stored.user_id true; raise revoked_token)
      else pure tt

  unfoldable pub refresh : String → Option (List Role) → Action Tokens
  unfolding get_by_token_hash reject_reuse get_user_by_id lacks_role ensure_account_accessible
      create_access_token draw_token rotate_token
  refresh raw required_roles = do
    stored ← or_raise (← get_by_token_hash env (env.sha256 raw)) invalid_token
    reject_reuse stored
    now ← gets (λ w. w.now)
    raise_if (leb stored.expires_at now) expired_token
    u ← or_raise (← get_user_by_id env stored.user_id) user_not_found
    ensure_account_accessible u
    raise_if (lacks_role required_roles u.role) forbidden
    new_raw ← draw_token env
    _ ←
        rotate_token env stored.id u.id (env.sha256 new_raw)
          (now + env.settings.refresh_token_lifetime)
    access_token ← create_access_token env u.id u.email u.role u.password_changed_at u.is_verified
    pure (access_token, new_raw)

  unfoldable pub logout : String → Action (Unit {0})
  unfolding get_by_token_hash revoke_token
  logout raw = do
    stored ← or_raise (← get_by_token_hash env (env.sha256 raw)) invalid_token
    if stored.is_revoked then pure tt else do _ ← revoke_token env stored.id; pure tt

  unfoldable pub resolve_user_from_access_token : String → Action User
  unfolding verify_token get is_text is_falsy claim_text get_user_by_id is_stale
  resolve_user_from_access_token access_token = do
    payload ← verify_token env access_token
    raise_if (not (is_text access (get "token_type" payload))) invalid_token
    raise_if (is_falsy (get "user_id" payload)) invalid_token
    user_id ← or_raise (env.parse_uuid (claim_text env (get "user_id" payload))) value_error
    u ← or_raise (← get_user_by_id env user_id) user_not_found
    raise_if (is_stale (get "pwd_ts" payload) u.password_changed_at) invalid_token
    pure u

  -- `AdminAuthService`: the same, for the two administrator roles
  abbrev pub admin_roles : List Role
  admin_roles = admin ∷ super_admin ∷ []

  unfoldable pub admin_login : String → String → Action (Tokens × User)
  unfolding login
  admin_login email password = login email password (some admin_roles)

  unfoldable pub admin_refresh : String → Action Tokens
  unfolding refresh
  admin_refresh raw = refresh raw (some admin_roles)

  unfoldable pub admin_logout : String → Action (Unit {0})
  unfolding logout
  admin_logout raw = logout raw
