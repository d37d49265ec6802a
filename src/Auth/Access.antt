-- ===== src/Auth/Access.antt =====
-- dependencies/auth.py: who may call a protected route
use recentthink_ai_be.Common.{String, List, ◌||◌, not}
use recentthink_ai_be.Auth.Model.{Role, super_admin, admin, role_eq, User}
use recentthink_ai_be.Auth.Action.{
  Env, Action, pure, raise_if, ◌>>=◌, ◌>>◌, blocked_user, inactive_user, email_not_verified,
  forbidden,
}
use recentthink_ai_be.Auth.Service.Session.{has_role, resolve_user_from_access_token}

module _ (env : Env) where
  unfoldable pub get_current_active_user : String → Action User
  unfolding resolve_user_from_access_token
  get_current_active_user token = do
    u ← resolve_user_from_access_token env token
    raise_if u.is_blocked blocked_user
    raise_if (not u.is_active) inactive_user
    pure u

  unfoldable pub require_verified_user : String → Action User
  unfolding get_current_active_user
  require_verified_user token = do
    u ← get_current_active_user token
    raise_if (not u.is_verified) email_not_verified
    pure u

  -- `get_current_admin` and `require_admin`
  unfoldable pub require_admin : String → Action User
  unfolding get_current_active_user
  require_admin token = do
    u ← get_current_active_user token
    raise_if (not (role_eq u.role admin || role_eq u.role super_admin)) forbidden
    pure u

  unfoldable pub require_super_admin : String → Action User
  unfolding get_current_active_user
  require_super_admin token = do
    u ← get_current_active_user token
    raise_if (not (role_eq u.role super_admin)) forbidden
    pure u

  unfoldable pub require_roles : List Role → String → Action User
  unfolding get_current_active_user has_role
  require_roles roles token = do
    u ← get_current_active_user token
    raise_if (not (has_role roles u.role)) forbidden
    pure u
