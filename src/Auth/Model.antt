-- ===== src/Auth/Model.antt =====
-- The rows that the Auth Service stores (app/models), and the tables that hold them.
-- An identifier is a number; an instant, and a duration, is a number of microseconds.
use recentthink_ai_be.Common.{ℕ, String, Bool, true, false, Option, List, ◌==◌, str_eq, ◌&&◌, not}

-- `Role` of models/enums.py
pub data Role : Type 0 where
  super_admin admin user : Role

-- `role.value`
unfoldable pub role_value : Role → String
role_value super_admin = "SUPER_ADMIN"
role_value admin = "ADMIN"
role_value user = "USER"

-- equality of two roles
abbrev pub role_eq : Role → Role → Bool
role_eq super_admin super_admin = true
role_eq admin admin = true
role_eq user user = true
role_eq _ _ = false

-- `User` of models/user.py
pub record User : Type 0 where
  pub id : ℕ
  pub first_name : String
  pub last_name : String
  pub email : String
  pub password_hash : String
  pub role : Role
  pub is_verified : Bool
  pub email_verified_at : Option ℕ
  pub is_active : Bool
  pub disabled_at : Option ℕ
  pub is_blocked : Bool
  pub blocked_at : Option ℕ
  pub blocked_reason : Option String
  pub deleted_at : Option ℕ
  pub password_changed_at : ℕ
  pub created_at : ℕ

-- `RefreshToken` of models/refresh_token.py; `token` is the digest of the raw token.
pub record RefreshToken : Type 0 where
  pub id : ℕ
  pub user_id : ℕ
  pub token : String
  pub expires_at : ℕ
  pub is_revoked : Bool

-- `PasswordResetToken` and `EmailVerificationToken` have the same columns.
pub record OneTimeToken : Type 0 where
  pub id : ℕ
  pub user_id : ℕ
  pub token : String
  pub expires_at : ℕ
  pub is_used : Bool

-- the four tables
pub record Tables : Type 0 where
  pub users : List User
  pub refresh_tokens : List RefreshToken
  pub reset_tokens : List OneTimeToken
  pub verification_tokens : List OneTimeToken

-- the row conditions that the statements of the repositories share
abbrev pub user_has_id : ℕ → User → Bool
user_has_id i u = u.id == i

abbrev pub user_has_email : String → User → Bool
user_has_email e u = str_eq u.email e

abbrev pub refresh_has_id : ℕ → RefreshToken → Bool
refresh_has_id i t = t.id == i

-- a refresh token of the user that is not revoked
abbrev pub is_live : ℕ → RefreshToken → Bool
is_live i t = t.user_id == i && not t.is_revoked

abbrev pub one_time_has_id : ℕ → OneTimeToken → Bool
one_time_has_id i t = t.id == i

-- a one-time token of the user that is not used
abbrev pub is_unused : ℕ → OneTimeToken → Bool
is_unused i t = t.user_id == i && not t.is_used

-- `is_used = True`
abbrev pub spend : OneTimeToken → OneTimeToken
spend row = record row { is_used = true }
