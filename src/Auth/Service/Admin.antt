-- ===== src/Auth/Service/Admin.antt =====
-- services/admin_user_management_service.py; the actor of a request is only logged.
use recentthink_ai_be.Common.{ℕ, String, true, false, Option, none, some, not, [], ◌∷◌, ◌||◌}
use recentthink_ai_be.Auth.Model.{admin, super_admin, role_eq, User}
use recentthink_ai_be.Auth.Action.{
  Env, Action, pure, raise_if, gets, or_raise, ◌>>=◌, ◌>>◌, or_rollback, invalidate,
  record_not_found, business,
}
use recentthink_ai_be.Auth.Fields.{Field}
use recentthink_ai_be.Auth.Repo.Users.{get_user_by_id, update_user, delete_user}
use recentthink_ai_be.Auth.Repo.Refresh.{revoke_all_tokens}
use recentthink_ai_be.Auth.Service.Account.{publish_account_deleted}

-- `_reject_admin_target`
unfoldable pub reject_admin_target : User → Action (Unit {0})
reject_admin_target u =
    raise_if (role_eq u.role admin || role_eq u.role super_admin)
      (business "Cannot perform this action on an administrator account.")

module _ (env : Env) where
  -- `_require_user`, also the whole of `get_user`
  unfoldable pub require_user : ℕ → Action User
  unfolding get_user_by_id
  require_user user_id = do or_raise (← get_user_by_id env user_id) record_not_found

  unfoldable pub block_user : ℕ → Option String → Action User
  unfolding require_user reject_admin_target update_user revoke_all_tokens
  block_user user_id reason = do
    u ← require_user user_id
    reject_admin_target u
    raise_if u.is_blocked (business "User is already blocked.")
    now ← gets (λ w. w.now)
    updated ← or_rollback (
        update_user env user_id true
          (Field.is_blocked true ∷ Field.blocked_at (some now) ∷ Field.blocked_reason reason ∷ []))
    _ ← revoke_all_tokens env user_id true
    invalidate user_id
    pure updated

  unfoldable pub unblock_user : ℕ → Action User
  unfolding require_user update_user
  unblock_user user_id = do
    u ← require_user user_id
    raise_if (not u.is_blocked) (business "User is not blocked.")
    updated ← or_rollback (
        update_user env user_id true
          (Field.is_blocked false ∷ Field.blocked_at none ∷ Field.blocked_reason none ∷ []))
    invalidate user_id
    pure updated

  unfoldable pub deactivate_user : ℕ → Action User
  unfolding require_user reject_admin_target update_user revoke_all_tokens
  deactivate_user user_id = do
    u ← require_user user_id
    reject_admin_target u
    raise_if (not u.is_active) (business "User is already deactivated.")
    now ← gets (λ w. w.now)
    updated ←
        or_rollback
          (update_user env user_id true (Field.is_active false ∷ Field.disabled_at (some now) ∷ []))
    _ ← revoke_all_tokens env user_id true
    invalidate user_id
    pure updated

  unfoldable pub activate_user : ℕ → Action User
  unfolding require_user update_user
  activate_user user_id = do
    u ← require_user user_id
    raise_if u.is_active (business "User is already active.")
    updated ←
        or_rollback
          (update_user env user_id true (Field.is_active true ∷ Field.disabled_at none ∷ []))
    invalidate user_id
    pure updated

  unfoldable pub delete_user_as_admin : ℕ → Action (Unit {0})
  unfolding require_user reject_admin_target revoke_all_tokens delete_user
  delete_user_as_admin user_id = do
    u ← require_user user_id
    reject_admin_target u
    or_rollback (do _ ← revoke_all_tokens env user_id false; delete_user env user_id)
    invalidate user_id
    publish_account_deleted user_id
