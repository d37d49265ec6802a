-- ===== src/Auth/Service/Verification.antt =====
-- services/one_time_token_validation.py and services/email_verification_service.py
use recentthink_ai_be.Common.{
  ◌+◌, String, true, false, Option, none, some, [], ◌∷◌, leb, if◌then◌else◌,
}
use recentthink_ai_be.Auth.Model.{User, OneTimeToken}
use recentthink_ai_be.Auth.Action.{
  Env, Action, Mail, pure, raise, raise_if, gets, or_raise, ◌>>=◌, ◌>>◌, draw_token, send_email,
  invalid_token, used_token, expired_token, user_not_found, email_already_verified,
}
use recentthink_ai_be.Auth.Fields.{Field}
use recentthink_ai_be.Auth.Repo.Users.{get_user_by_id, get_user_by_email, update_user}
use recentthink_ai_be.Auth.Repo.Verifications.{
  create_token, get_by_token, invalidate_unused_tokens, mark_as_used,
}

unfoldable pub validate_one_time_token : Option OneTimeToken → Action OneTimeToken
validate_one_time_token none = raise invalid_token
validate_one_time_token (some stored) = do
  raise_if stored.is_used used_token
  now ← gets (λ w. w.now)
  raise_if (leb stored.expires_at now) expired_token
  pure stored

module _ (env : Env) where
  unfoldable pub send_verification_email : User → Action (Unit {0})
  unfolding draw_token create_token send_email
  send_verification_email u = do
    raw ← draw_token env
    now ← gets (λ w. w.now)
    _ ←
        create_token env u.id (env.sha256 raw) (now + env.settings.verification_token_lifetime)
          false
    send_email env (Mail.verification_mail u.email raw)

  -- the flag of the account, which is set once
  unfoldable pub mark_verified : User → Action User
  unfolding update_user
  mark_verified u = if u.is_verified then pure u else do
    now ← gets (λ w. w.now)
    update_user env u.id true (Field.is_verified true ∷ Field.email_verified_at (some now) ∷ [])

  unfoldable pub verify_email : String → Action User
  unfolding get_by_token validate_one_time_token get_user_by_id mark_verified mark_as_used
  verify_email raw = do
    stored ← validate_one_time_token (← get_by_token env (env.sha256 raw))
    u ← or_raise (← get_user_by_id env stored.user_id) user_not_found
    u' ← mark_verified u
    _ ← mark_as_used env stored.id
    pure u'

  unfoldable pub resend_verification : String → Action (Unit {0})
  unfolding get_user_by_email invalidate_unused_tokens send_verification_email
  resend_verification email = do
    u ← or_raise (← get_user_by_email env email) user_not_found
    raise_if u.is_verified email_already_verified
    _ ← invalidate_unused_tokens env u.id
    send_verification_email u
