-- ===== src/Auth/SignIn.antt =====
-- Signing in (`AuthService.login`): when tokens are issued, and what a refusal leaves behind.
use recentthink_ai_be.Common.{
  ℕ, ◌+◌, String, true, false, Option, none, some, List, find, arith, ◌≡◌, ◌≢◌,
}
use recentthink_ai_be.Auth.Model.{Role, User, RefreshToken, user_has_email}
use recentthink_ai_be.Auth.Action.{Env, World, Error, ok, err, repository_error, is_ok}
use recentthink_ai_be.Auth.Repo.Refresh.{insert_token}
use recentthink_ai_be.Auth.Service.Session.{login, Tokens, lacks_role}

module _ (env : Env) (w : World) (email password : String) (roles : Option (List Role)) where
  pub record IsAdmitted (u : User) : Type 0 where
    pub is_known : find (user_has_email email) w.session.users ≡ some u
    pub password_fits : env.checkpw password u.password_hash ≡ true
    pub role_fits : lacks_role roles u.role ≡ false
    pub not_blocked : u.is_blocked ≡ false
    pub active : u.is_active ≡ true

  -- the row of the new session; the draws are the `jti`, the raw token and the identifier
  abbrev pub session_row : User → RefreshToken
  session_row u = record {
    id = w.draws + 1 + 1;
    user_id = u.id;
    token = env.sha256 (env.token_urlsafe (w.draws + 1));
    expires_at = w.now + env.settings.refresh_token_lifetime;
    is_revoked = false;
  }

  -- A login that returns tokens found a user with the address whose password fits, whose role is
  -- among the required ones and whose account is neither blocked nor disabled; it returns that user
  -- and commits one live session with the digest of the refresh token that it returns.
  pub login_sound :
      (ts : Tokens) (u : User)
      → (login env email password roles w).0 ≡ ok (ts, u)
      → IsAdmitted u
        × (ts.1 ≡ env.token_urlsafe (w.draws + 1))
        × ((login env email password roles w).1.db ≡ insert_token (session_row u) w.session)
  unfolding login
  login_sound ts u e = (
    record {
      is_known = ground arith;
      password_fits = ground arith;
      role_fits = ground arith;
      not_blocked = ground arith;
      active = ground arith;
    },
    ground arith,
    ground arith,
  )

  -- While no call of the database fails, a login with the address and the password of a user who
  -- is active, not blocked and of a fitting role returns tokens.
  pub login_complete :
      (up : (n : ℕ) → env.fault n ≡ none) (u : User)
      → IsAdmitted u
      → is_ok (login env email password roles w).0 ≡ true
  unfolding login
  login_complete up u a = ground (
    arith,
    up w.calls,
    up (w.calls + 1),
    up (w.calls + 1 + 1),
    a.is_known,
    a.password_fits,
    a.role_fits,
    a.not_blocked,
    a.active,
  )

  -- A login that raises anything but `RepositoryError` commits nothing.
  pub login_refused :
      (e : Error)
      → (login env email password roles w).0 ≡ err e
      → e ≢ repository_error
      → (login env email password roles w).1.db ≡ w.db
  unfolding login
  login_refused e h ne = ground arith
