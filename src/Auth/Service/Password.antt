-- ===== src/Auth/Service/Password.antt =====
-- services/password_management_service.py
use recentthink_ai_be.Common.{
  ℕ, String, Bool, false, Option, none, some, not, ◌&&◌, ◌==◌, [], ◌∷◌, if◌then◌else◌,
}
use recentthink_ai_be.Auth.Model.{User, RefreshToken}
use recentthink_ai_be.Auth.Action.{
  Env, Action, raise_if, gets, ◌>>=◌, ◌>>◌, hash_password, commit, or_rollback, invalidate,
  invalid_credentials, password_reuse,
}
use recentthink_ai_be.Auth.Fields.{Field}
use recentthink_ai_be.Auth.Repo.Users.{update_user}
use recentthink_ai_be.Auth.Repo.Refresh.{
  get_by_token_hash, revoke_all_tokens, revoke_all_tokens_except,
}

-- may the presented token be kept: is it a live one of the same user?
unfoldable pub is_own_session : ℕ → Option RefreshToken → Bool
is_own_session user_id none = false
is_own_session user_id (some stored) = stored.user_id == user_id && not stored.is_revoked

module _ (env : Env) where
  -- all sessions but the current one, if that is to be kept and is known
  unfoldable pub revoke_others : ℕ → String → Action ℕ
  unfolding get_by_token_hash is_own_session revoke_all_tokens revoke_all_tokens_except
  revoke_others user_id raw = do
    stored ← get_by_token_hash env (env.sha256 raw)
    if is_own_session user_id stored
        then revoke_all_tokens_except env user_id (env.sha256 raw) false
        else revoke_all_tokens env user_id false

  -- `_revoke_sessions`
  unfoldable pub revoke_sessions : ℕ → Option String → Action ℕ
  unfolding revoke_others revoke_all_tokens
  revoke_sessions user_id none = revoke_all_tokens env user_id false
  revoke_sessions user_id (some raw) =
      if env.settings.keep_current_session
      then revoke_others user_id raw
      else revoke_all_tokens env user_id false

  unfoldable pub change_password : User → String → String → Option String → Action (Unit {0})
  unfolding hash_password update_user revoke_sessions commit
  change_password u current_password new_password refresh_token = do
    raise_if (not (env.checkpw current_password u.password_hash)) invalid_credentials
    raise_if (env.checkpw new_password u.password_hash) password_reuse
    password_hash ← hash_password env new_password
    changed_at ← gets (λ w. w.now)
    or_rollback (do
      _ ←
          update_user env u.id false
            (Field.password_hash password_hash ∷ Field.password_changed_at changed_at ∷ [])
      _ ← revoke_sessions u.id refresh_token
      commit env)
    invalidate u.id
