-- ===== src/Auth/Store/Services.antt =====
-- The use cases on sessions, addresses and forgotten passwords keep to the changes of `Step`, at every call where the database may fail.
use recentthink_ai_be.Common.{ℕ, String, Bool, Option, none, some, List}
use recentthink_ai_be.Auth.Model.{Role, User, RefreshToken, OneTimeToken}
use recentthink_ai_be.Auth.Action.{Env, World, Result, err, email_delivery, Action}
use recentthink_ai_be.Auth.Fields.{new_email}
use recentthink_ai_be.Auth.Service.Jwt
use recentthink_ai_be.Auth.Service.Verification
use recentthink_ai_be.Auth.Service.Session
use recentthink_ai_be.Auth.Service.Reset
use recentthink_ai_be.Auth.Store.{Store}
use recentthink_ai_be.Auth.Store.Keeps.{Keeps}
use recentthink_ai_be.Auth.Store.Calls.{Tracks, tracks_rules}
use recentthink_ai_be.Auth.Store.Repos.{
  revoke_all-Tracks, revoke_others-Tracks, get_by_token_hash-Tracks, revoke_token-Tracks,
  reset_get-Tracks, reset_invalidate-Tracks, consume-Tracks, verification_get-Tracks,
  verification_invalidate-Tracks, verification_mark-Tracks, user_by_id-Tracks, user_by_email-Tracks,
  exists_role-Tracks, delete_user-Tracks, create_refresh-Tracks, create_reset-Tracks,
  create_verification-Tracks,
}
use recentthink_ai_be.Auth.Store.Writes.{rotate-Tracks, create_user-Tracks, update_user-Tracks}

pub ruleset repo_rules = (
  tracks_rules, revoke_all-Tracks, revoke_others-Tracks, get_by_token_hash-Tracks,
  revoke_token-Tracks, reset_get-Tracks, reset_invalidate-Tracks, consume-Tracks,
  verification_get-Tracks, verification_invalidate-Tracks, verification_mark-Tracks,
  user_by_id-Tracks, user_by_email-Tracks, exists_role-Tracks, delete_user-Tracks,
  create_refresh-Tracks, create_reset-Tracks, create_verification-Tracks, rotate-Tracks,
  create_user-Tracks, update_user-Tracks,
)

module _ (env : Env) (s : Store) where
  access_token-Tracks :
      (i : ℕ) (e : String) (r : Role) (p : ℕ) (v : Bool)
      → Keeps (Tracks s) (Jwt.create_access_token env i e r p v)
  unfolding Jwt.create_access_token
  access_token-Tracks i e r p v = search repo_rules depth 9

  verify_token-Tracks : (t : String) → Keeps (Tracks s) (Jwt.verify_token env t)
  unfolding Jwt.verify_token
  verify_token-Tracks t = search repo_rules depth 9

  accessible-Tracks : (u : User) → Keeps (Tracks s) (Session.ensure_account_accessible u)
  unfolding Session.ensure_account_accessible
  accessible-Tracks u = search repo_rules depth 9

  pub resolve-Tracks :
      (t : String) → Keeps (Tracks s) (Session.resolve_user_from_access_token env t)
  unfolding Session.resolve_user_from_access_token
  resolve-Tracks t = search (repo_rules, verify_token-Tracks) depth 14

  pub login-Tracks :
      (e p : String) (r : Option (List Role)) → Keeps (Tracks s) (Session.login env e p r)
  unfolding Session.login
  login-Tracks e p r = search (repo_rules, access_token-Tracks, accessible-Tracks) depth 18

  reuse-Tracks : (t : RefreshToken) → Keeps (Tracks s) (Session.reject_reuse env t)
  unfolding Session.reject_reuse
  reuse-Tracks t = search repo_rules depth 9

  pub refresh-Tracks :
      (t : String) (r : Option (List Role)) → Keeps (Tracks s) (Session.refresh env t r)
  unfolding Session.refresh
  refresh-Tracks t r =
      search (repo_rules, access_token-Tracks, accessible-Tracks, reuse-Tracks) depth 20

  pub logout-Tracks : (t : String) → Keeps (Tracks s) (Session.logout env t)
  unfolding Session.logout
  logout-Tracks t = search repo_rules depth 9

  validate-Tracks :
      (o : Option OneTimeToken) → Keeps (Tracks s) (Verification.validate_one_time_token o)
  unfolding Verification.validate_one_time_token
  validate-Tracks none = search repo_rules
  validate-Tracks (some t) = search repo_rules depth 9

  send_verification-Tracks :
      (u : User) → Keeps (Tracks s) (Verification.send_verification_email env u)
  unfolding Verification.send_verification_email
  send_verification-Tracks u = search repo_rules depth 9

  mark_verified-Tracks : (u : User) → Keeps (Tracks s) (Verification.mark_verified env u)
  unfolding Verification.mark_verified new_email
  mark_verified-Tracks u = search repo_rules depth 9

  pub verify_email-Tracks : (t : String) → Keeps (Tracks s) (Verification.verify_email env t)
  unfolding Verification.verify_email
  verify_email-Tracks t = search (repo_rules, validate-Tracks, mark_verified-Tracks) depth 14

  pub resend-Tracks : (e : String) → Keeps (Tracks s) (Verification.resend_verification env e)
  unfolding Verification.resend_verification
  resend-Tracks e = search (repo_rules, send_verification-Tracks) depth 14

  ignored :
      (r : Result (Unit {0})) (w : World)
      → Tracks s w
      → Tracks s (Session.ignore_delivery_with r w).1
  ignored (err email_delivery) w t = t
  ignored r w t = t

  ignore-Tracks :
      (m : Action (Unit {0})) → Keeps (Tracks s) m → Keeps (Tracks s) (Session.ignore_delivery m)
  ignore-Tracks m k = record { at = λ w t. ignored (m w).0 (m w).1 (k.at w t) }

  pub register-Tracks : (f l e p : String) → Keeps (Tracks s) (Session.register env f l e p)
  unfolding Session.register
  register-Tracks f l e p = search (repo_rules, ignore-Tracks, send_verification-Tracks) depth 12

  send_reset-Tracks : (u : User) → Keeps (Tracks s) (Reset.send_reset_email env u)
  unfolding Reset.send_reset_email
  send_reset-Tracks u = search repo_rules depth 9

  issue-Tracks : (o : Option User) → Keeps (Tracks s) (Reset.issue_reset env o)
  unfolding Reset.issue_reset
  issue-Tracks none = search repo_rules
  issue-Tracks (some u) = search (repo_rules, ignore-Tracks, send_reset-Tracks) depth 9

  pub forgot-Tracks : (e : String) → Keeps (Tracks s) (Reset.request_password_reset env e)
  unfolding Reset.request_password_reset
  forgot-Tracks e = search (repo_rules, issue-Tracks)

  pub reset-Tracks : (t p : String) → Keeps (Tracks s) (Reset.reset_password env t p)
  unfolding Reset.reset_password new_email
  reset-Tracks t p = search (repo_rules, validate-Tracks) depth 22
