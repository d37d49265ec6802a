-- ===== src/Auth/Service/Account.antt =====
-- services/account_service.py; the purge that events/account_events.py asks of other services is
-- recorded in `deleted`.
use recentthink_ai_be.Common.{ℕ, String, Bool, true, false, Option, none, some, not, [], ◌∷◌, ◌++◌}
use recentthink_ai_be.Auth.Model.{User}
use recentthink_ai_be.Auth.Action.{
  Env, Action, pure, raise_if, gets, modify, or_raise, ◌>>=◌, ◌>>◌, ping, commit, or_rollback,
  invalidate, invalid_credentials, blocked_user, business,
}
use recentthink_ai_be.Auth.Fields.{Field}
use recentthink_ai_be.Auth.Repo.Users.{get_user_by_email, update_user, delete_user}
use recentthink_ai_be.Auth.Repo.Refresh.{revoke_all_tokens}
use recentthink_ai_be.Auth.Repo.Verifications
use recentthink_ai_be.Auth.Repo.Resets
use recentthink_ai_be.Auth.Service.Session.{credentials_match}

-- `publish_account_deleted`
abbrev pub publish_account_deleted : ℕ → Action (Unit {0})
publish_account_deleted user_id = modify (λ w. record w { deleted = w.deleted ++ user_id ∷ [] })

-- `AccountStatusResponse`
pub record AccountStatus : Type 0 where
  pub is_active : Bool
  pub is_blocked : Bool
  pub disabled_at : Option ℕ
  pub blocked_at : Option ℕ

unfoldable pub get_status : User → AccountStatus
get_status u = record {
  is_active = u.is_active;
  is_blocked = u.is_blocked;
  disabled_at = u.disabled_at;
  blocked_at = u.blocked_at;
}

module _ (env : Env) where
  -- `_verify_password`
  unfoldable pub verify_password : User → String → Action (Unit {0})
  verify_password u password =
      raise_if (not (env.checkpw password u.password_hash)) invalid_credentials

  unfoldable pub disable_account : User → String → Action (Option ℕ)
  unfolding verify_password update_user revoke_all_tokens commit ping
  disable_account u password = do
    verify_password u password
    raise_if u.is_blocked blocked_user
    raise_if (not u.is_active) (business "Account is already disabled.")
    now ← gets (λ w. w.now)
    updated ← or_rollback (do
      row ← update_user env u.id false (Field.is_active false ∷ Field.disabled_at (some now) ∷ [])
      _ ← revoke_all_tokens env u.id false
      commit env
      ping env
      pure row)
    invalidate u.id
    pure updated.disabled_at

  unfoldable pub enable_account : String → String → Action (Option ℕ)
  unfolding get_user_by_email credentials_match update_user
  enable_account email password = do
    found ← get_user_by_email env email
    raise_if (not (credentials_match env found password)) invalid_credentials
    u ← or_raise found invalid_credentials
    raise_if u.is_blocked blocked_user
    raise_if u.is_active (business "Account is already active.")
    updated ←
        or_rollback (update_user env u.id true (Field.is_active true ∷ Field.disabled_at none ∷ []))
    invalidate u.id
    pure updated.disabled_at

  unfoldable pub delete_account : User → String → Bool → Action (Unit {0})
  unfolding verify_password revoke_all_tokens Verifications.invalidate_unused_tokens
      Resets.invalidate_unused_tokens delete_user
  delete_account u password confirm = do
    raise_if (not confirm) (business "Account deletion requires confirm=true.")
    verify_password u password
    or_rollback (do
      _ ← revoke_all_tokens env u.id false
      _ ← Verifications.invalidate_unused_tokens env u.id
      _ ← Resets.invalidate_unused_tokens env u.id
      delete_user env u.id)
    invalidate u.id
    publish_account_deleted u.id
