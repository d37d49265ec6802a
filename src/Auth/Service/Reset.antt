-- ===== src/Auth/Service/Reset.antt =====
-- services/password_reset_service.py
use recentthink_ai_be.Common.{◌+◌, String, Option, none, some, false, not, [], ◌∷◌}
use recentthink_ai_be.Auth.Model.{User}
use recentthink_ai_be.Auth.Action.{
  Env, Action, Mail, pure, raise_if, gets, or_raise, ◌>>=◌, ◌>>◌, draw_token, hash_password,
  send_email, commit, or_rollback, invalidate, used_token, user_not_found,
}
use recentthink_ai_be.Auth.Fields.{Field}
use recentthink_ai_be.Auth.Repo.Users.{get_user_by_id, get_user_by_email, update_user}
use recentthink_ai_be.Auth.Repo.Refresh.{revoke_all_tokens}
use recentthink_ai_be.Auth.Repo.Resets.{
  create_token, get_by_token, invalidate_unused_tokens, consume_token,
}
use recentthink_ai_be.Auth.Service.Verification.{validate_one_time_token}
use recentthink_ai_be.Auth.Service.Session.{ignore_delivery}

module _ (env : Env) where
  unfoldable pub send_reset_email : User → Action (Unit {0})
  unfolding draw_token create_token send_email
  send_reset_email u = do
    raw ← draw_token env
    now ← gets (λ w. w.now)
    _ ← create_token env u.id (env.sha256 raw) (now + env.settings.reset_token_lifetime) false
    send_email env (Mail.reset_mail u.email raw)

  -- an unknown address: a token is drawn and thrown away, and the answer is the same
  unfoldable pub issue_reset : Option User → Action (Unit {0})
  unfolding draw_token invalidate_unused_tokens send_reset_email
  issue_reset none = do _ ← draw_token env; pure tt
  issue_reset (some u) = do
    _ ← invalidate_unused_tokens env u.id
    ignore_delivery (send_reset_email u)

  unfoldable pub request_password_reset : String → Action (Unit {0})
  unfolding get_user_by_email issue_reset
  request_password_reset email = do found ← get_user_by_email env email; issue_reset found

  unfoldable pub reset_password : String → String → Action (Unit {0})
  unfolding get_by_token validate_one_time_token get_user_by_id hash_password consume_token
      update_user revoke_all_tokens commit
  reset_password raw new_password = do
    stored ← validate_one_time_token (← get_by_token env (env.sha256 raw))
    u ← or_raise (← get_user_by_id env stored.user_id) user_not_found
    password_hash ← hash_password env new_password
    changed_at ← gets (λ w. w.now)
    or_rollback (do
      consumed ← consume_token env stored.id false
      raise_if (not consumed) used_token
      _ ←
          update_user env u.id false
            (Field.password_hash password_hash ∷ Field.password_changed_at changed_at ∷ [])
      _ ← revoke_all_tokens env u.id false
      commit env)
    invalidate u.id
