-- ===== src/Auth/Issue.antt =====
-- Issuing password-reset tokens (`PasswordResetService.request_password_reset`).
use recentthink_ai_be.Common.{
  ℕ, ◌+◌, String, false, some, List, [], ◌∷◌, ◌++◌, find, arith, ◌≡◌, refl, count, update,
  count-update_all, count-append,
}
use recentthink_ai_be.Auth.Model.{User, OneTimeToken, user_has_email, is_unused, spend}
use recentthink_ai_be.Auth.Action.{Env, World, ok}
use recentthink_ai_be.Auth.Service.Reset.{request_password_reset}

-- all unused tokens of the user are spent, and a new one is added
count-reissued :
    (i : ℕ) (rows : List OneTimeToken) (row : OneTimeToken)
    → row.user_id ≡ i
    → row.is_used ≡ false
    → count (is_unused i) (update (is_unused i) spend rows ++ row ∷ []) ≡ 1
count-reissued i rows row own fresh = ground (
  arith,
  count-append (is_unused i) (update (is_unused i) spend rows) (row ∷ []),
  count-update_all (is_unused i) spend (λ x. ground arith) rows,
)

module _ (env : Env) (w : World) (email : String) where
  -- the row of a new token; the draws are the raw token and the identifier
  abbrev pub issued : ℕ → ℕ → OneTimeToken
  issued user_id lifetime = record {
    id = w.draws + 1;
    user_id = user_id;
    token = env.sha256 (env.token_urlsafe w.draws);
    expires_at = w.now + lifetime;
    is_used = false;
  }

  reset_tables :
      (u : User)
      → find (user_has_email email) w.session.users ≡ some u
      → (request_password_reset env email w).0 ≡ ok tt
      → (request_password_reset env email w).1.db.reset_tokens
        ≡ update (is_unused u.id) spend w.session.reset_tokens
          ++ issued u.id env.settings.reset_token_lifetime ∷ []
  unfolding request_password_reset
  reset_tables u f h = ground arith

  -- A request for a password reset that returns, for a known address, leaves the user with exactly one
  -- unused reset token: the earlier ones are spent. It holds whether the mail was delivered or not.
  pub request_reset_leaves_one :
      (u : User)
      → find (user_has_email email) w.session.users ≡ some u
      → (request_password_reset env email w).0 ≡ ok tt
      → count (is_unused u.id) (request_password_reset env email w).1.db.reset_tokens ≡ 1
  request_reset_leaves_one u f h = rw (reset_tables u f h) (
      count-reissued u.id w.session.reset_tokens (issued u.id env.settings.reset_token_lifetime)
        refl refl)
