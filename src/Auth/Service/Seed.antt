-- ===== src/Auth/Service/Seed.antt =====
-- services/super_admin_seed_service.py
use recentthink_ai_be.Common.{String, Bool, true, false, Option, none, some, if◌then◌else◌, str_eq}
use recentthink_ai_be.Auth.Model.{super_admin}
use recentthink_ai_be.Auth.Action.{Env, Action, pure, ◌>>=◌, hash_password}
use recentthink_ai_be.Auth.Repo.Users.{create_user, exists_user_with_role}

-- a setting that is present and not empty
unfoldable pub configured : Option String → Option String
configured none = none
configured (some s) = if str_eq s "" then none else some s

module _ (env : Env) where
  unfoldable pub create_super_admin : String → String → String → String → Action Bool
  unfolding hash_password create_user
  create_super_admin email password first_name last_name = do
    password_hash ← hash_password env password
    _ ← create_user env first_name last_name email password_hash super_admin true true
    pure true

  -- `_credentials_configured`: the seed is skipped unless all four settings are given
  unfoldable pub seed_with :
      Option String → Option String → Option String → Option String → Action Bool
  unfolding create_super_admin
  seed_with (some email) (some password) (some first_name) (some last_name) =
      create_super_admin email password first_name last_name
  seed_with _ _ _ _ = pure false

  unfoldable pub seed_super_admin : Action Bool
  unfolding exists_user_with_role seed_with configured
  seed_super_admin = do
    exists ← exists_user_with_role env super_admin
    if exists
        then pure false
        else seed_with (configured env.settings.super_admin_email)
            (configured env.settings.super_admin_password)
            (configured env.settings.super_admin_first_name)
            (configured env.settings.super_admin_last_name)
