-- ===== src/Auth/Account.antt =====
-- Disabling, enabling and deleting one's own account (`AccountService`).
use recentthink_ai_be.Common.{
  ◌⊎◌, refl, count-select-not, ℕ, ◌+◌, String, true, false, Option, none, some, List, [], ◌∷◌, find,
  arith, ◌≡◌, ◌≢◌, count, select, not, ◌==◌, Option-cases, inl, inr, ◌++◌, Bool,
}
use recentthink_ai_be.Auth.Model.{
  User, RefreshToken, OneTimeToken, Tables, user_has_id, user_has_email, is_live, is_unused,
}
use recentthink_ai_be.Auth.Action.{Env, World, ok, err, repository_error}
use recentthink_ai_be.Auth.Fields.{set_fields, Field}
use recentthink_ai_be.Auth.Repo.Users.{update_where, delete_cascade}
use recentthink_ai_be.Auth.Repo.Refresh.{revoke_where}
use recentthink_ai_be.Auth.Repo.Verifications
use recentthink_ai_be.Auth.Repo.Resets
use recentthink_ai_be.Auth.Repo.Sessions.{live-revoke_all}
use recentthink_ai_be.Auth.Service.Account.{disable_account, enable_account, delete_account}

module _ (env : Env) (w : World) (u : User) (password : String) where
  abbrev pub disable_fields : List Field
  disable_fields = Field.is_active false ∷ Field.disabled_at (some w.now) ∷ []

  -- the tables after the account is disabled
  abbrev pub disabled : Tables
  disabled = revoke_where (is_live u.id) (update_where u.id (set_fields disable_fields) w.session)

  -- Disabling an account in a new transaction commits the user's row and the end of every session of
  -- the user together, or nothing, wherever the database fails.
  pub disable_account_atomic :
      w.session ≡ w.db
      → ((disable_account env u password w).1.db ≡ w.db)
        ⊎ ((disable_account env u password w).1.db ≡ disabled)
  unfolding disable_account
  disable_account_atomic fresh = ground arith

  -- If disabling an account returns, the password fitted and the account was neither blocked nor
  -- disabled; the user's row and the end of the sessions are committed, no session of the user is
  -- live, and the cached state of the user is dropped.
  pub disable_account_sound :
      (at : Option ℕ)
      → (disable_account env u password w).0 ≡ ok at
      → (env.checkpw password u.password_hash ≡ true)
        × (u.is_blocked ≡ false)
        × (u.is_active ≡ true)
        × ((disable_account env u password w).1.db ≡ disabled)
        × (count (is_live u.id) (disable_account env u password w).1.db.refresh_tokens ≡ 0)
        × ((disable_account env u password w).1.cache u.id ≡ none)
  unfolding disable_account
  disable_account_sound at h = (
    ground arith,
    ground arith,
    ground arith,
    ground arith,
    ground (arith, live-revoke_all u.id w.session.refresh_tokens),
    ground arith,
  )

  -- the tables before the row itself is deleted
  abbrev before_delete : Tables
  before_delete =
      Resets.spend_where (is_unused u.id)
        (Verifications.spend_where (is_unused u.id) (revoke_where (is_live u.id) w.session))

  delete_account_tables :
      (confirm : Bool)
      → (delete_account env u password confirm w).0 ≡ ok tt
      → (confirm ≡ true)
        × (env.checkpw password u.password_hash ≡ true)
        × ((delete_account env u password confirm w).1.db ≡ delete_cascade u.id before_delete)
        × ((delete_account env u password confirm w).1.cache u.id ≡ none)
        × ((delete_account env u password confirm w).1.deleted ≡ w.deleted ++ u.id ∷ [])
  unfolding delete_account
  delete_account_tables confirm h =
      (ground arith, ground arith, ground arith, ground arith, ground arith)

  -- A deletion that returns was confirmed and had the right password. The user's row is gone from the
  -- database and so is every token of the user; the other rows of the users stay, in their order;
  -- the cached state is dropped, and the other services are asked to purge the user.
  pub delete_account_effect :
      (confirm : Bool)
      → (delete_account env u password confirm w).0 ≡ ok tt
      → (confirm ≡ true)
        × (env.checkpw password u.password_hash ≡ true)
        × ((delete_account env u password confirm w).1.db.users
            ≡ select (λ v. not (user_has_id u.id v)) w.session.users)
        × (count
              (λ (r : RefreshToken). r.user_id == u.id)
              (delete_account env u password confirm w).1.db.refresh_tokens
            ≡ 0)
        × (count
              (λ (r : OneTimeToken). r.user_id == u.id)
              (delete_account env u password confirm w).1.db.reset_tokens
            ≡ 0)
        × (count
              (λ (r : OneTimeToken). r.user_id == u.id)
              (delete_account env u password confirm w).1.db.verification_tokens
            ≡ 0)
        × ((delete_account env u password confirm w).1.cache u.id ≡ none)
        × ((delete_account env u password confirm w).1.deleted ≡ w.deleted ++ u.id ∷ [])
  delete_account_effect confirm h =
      let (confirmed, fits, moved, dropped, told) = delete_account_tables confirm h in
      let t = before_delete in
      (
        confirmed,
        fits,
        rw moved refl,
        rw moved (count-select-not (λ (r : RefreshToken). r.user_id == u.id) t.refresh_tokens),
        rw moved (count-select-not (λ (r : OneTimeToken). r.user_id == u.id) t.reset_tokens),
        rw moved (count-select-not (λ (r : OneTimeToken). r.user_id == u.id) t.verification_tokens),
        dropped,
        told,
      )

  -- Deleting an account is not all or nothing: the invalidation of the verification tokens commits
  -- the revocation of the sessions that was left pending. If a later call fails, here the one that
  -- invalidates the reset tokens, the method raises, the user stays, and those two changes stay too.
  pub delete_account_interrupted :
      env.checkpw password u.password_hash ≡ true
      → env.fault w.calls ≡ none
      → env.fault (w.calls + 1) ≡ none
      → env.fault (w.calls + 1 + 1) ≡ none
      → env.fault (w.calls + 1 + 1 + 1) ≢ none
      → ((delete_account env u password true w).0 ≡ err repository_error)
        × ((delete_account env u password true w).1.db
            ≡ Verifications.spend_where (is_unused u.id) (revoke_where (is_live u.id) w.session))
  unfolding delete_account
  delete_account_interrupted p a b c d = (ground arith, ground arith)

-- the row that enabling finds again
module _ (env : Env) (w : World) (email password : String) where
  abbrev pub enable_fields : List Field
  enable_fields = Field.is_active true ∷ Field.disabled_at none ∷ []

  -- Enabling that returns was of a user with the address, disabled and not blocked, whose password
  -- fits; it commits the two columns and drops the cached state of the user.
  pub enable_account_sound :
      (at : Option ℕ)
      → (enable_account env email password w).0 ≡ ok at
      → (u : User) × (find (user_has_email email) w.session.users ≡ some u)
        × (env.checkpw password u.password_hash ≡ true)
        × (u.is_blocked ≡ false)
        × (u.is_active ≡ false)
        × ((enable_account env email password w).1.db
            ≡ update_where u.id (set_fields enable_fields) w.session)
        × ((enable_account env email password w).1.cache u.id ≡ none)
  enable_account_sound at h = elim (Option-cases (find (user_has_email email) w.session.users)) [
    | inl unknown ↦ absurd (unfold enable_account in ground arith)
    | inr (u, f) ↦ (
      u,
      f,
      unfold enable_account in ground arith,
      unfold enable_account in ground arith,
      unfold enable_account in ground arith,
      unfold enable_account in ground arith,
      unfold enable_account in ground arith,
    )
  ]
