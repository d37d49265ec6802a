-- ===== src/Auth/Redemption.antt =====
-- Redeeming a password reset token (`PasswordResetService.reset_password`).
use recentthink_ai_be.Common.{
  find-update, ap, ◌∙◌, ◌<◌, String, true, false, Option, none, some, List, [], ◌∷◌, find, arith,
  ◌≡◌, Option-cases, inl, inr, str_eq, ◌⊎◌, count, refl,
}
use recentthink_ai_be.Auth.Model.{User, OneTimeToken, Tables, user_has_id, is_live, spend}
use recentthink_ai_be.Auth.Action.{Env, World, Error, ok, err, repository_error, used_token}
use recentthink_ai_be.Auth.Fields.{set_fields, Field}
use recentthink_ai_be.Auth.Repo.Users.{update_where}
use recentthink_ai_be.Auth.Repo.Refresh.{revoke_where}
use recentthink_ai_be.Auth.Repo.Resets.{spend_where, is_consumable}
use recentthink_ai_be.Auth.Repo.Rows.{find_by_own_id, find-update_self}
use recentthink_ai_be.Auth.Repo.Sessions.{live-revoke_all}
use recentthink_ai_be.Auth.Service.Reset.{reset_password}

-- the row that is stored under a raw token
abbrev pub reset_stored_under : Env → Tables → String → Option OneTimeToken
reset_stored_under env t raw =
    find (λ (r : OneTimeToken). str_eq r.token (env.sha256 raw)) t.reset_tokens

-- the columns that are written
abbrev pub new_password_fields : Env → World → String → List Field
new_password_fields env w new_password =
    Field.password_hash (env.hashpw w.draws new_password) ∷ Field.password_changed_at w.now ∷ []

module _ (env : Env) (w : World) (raw new_password : String) where
  -- the tables after a reset
  abbrev pub after_reset : OneTimeToken → User → Tables
  after_reset stored u = revoke_where (is_live u.id) (
      update_where u.id (set_fields (new_password_fields env w new_password))
        (spend_where (is_consumable stored.id) w.session))

  -- A reset is all or nothing: if it raises, for whatever reason and at whatever call, nothing of it
  -- is committed.
  pub reset_password_atomic :
      (e : Error)
      → (reset_password env raw new_password w).0 ≡ err e
      → (reset_password env raw new_password w).1.db ≡ w.db
  unfolding reset_password
  reset_password_atomic e h = ground arith

  reset_from :
      (stored : OneTimeToken) (u : User)
      → reset_stored_under env w.session raw ≡ some stored
      → find (user_has_id stored.user_id) w.session.users ≡ some u
      → (reset_password env raw new_password w).0 ≡ ok tt
      → (stored.is_used ≡ false)
        × (w.now < stored.expires_at)
        × ((reset_password env raw new_password w).1.db ≡ after_reset stored u)
        × ((reset_password env raw new_password w).1.cache u.id ≡ none)
  unfolding reset_password
  reset_from stored u f g h = (ground arith, ground arith, ground arith, ground arith)

  -- A reset that returns found a stored token, unused and unexpired, of a known user. It commits one
  -- transaction: the token is spent, the user has the new password and the instant of the change,
  -- and the user's live sessions are revoked; the cached state of the user is dropped.
  pub reset_password_sound :
      (reset_password env raw new_password w).0 ≡ ok tt
      → (stored : OneTimeToken) × (u : User) × (reset_stored_under env w.session raw ≡ some stored)
        × (find (user_has_id stored.user_id) w.session.users ≡ some u)
        × (stored.is_used ≡ false)
        × (w.now < stored.expires_at)
        × ((reset_password env raw new_password w).1.db ≡ after_reset stored u)
        × ((reset_password env raw new_password w).1.cache u.id ≡ none)
  reset_password_sound h = elim (Option-cases (reset_stored_under env w.session raw)) [
    | inl absent ↦ absurd (unfold reset_password in ground arith)
    | inr (stored, f) ↦ elim (Option-cases (find (user_has_id stored.user_id) w.session.users)) [
      | inl unknown ↦ absurd (unfold reset_password in ground arith)
      | inr (u, g) ↦ let (a, b, c, d) = reset_from stored u f g h in (stored, u, f, g, a, b, c, d)
    ]
  ]

  -- the spent row is still found under the raw token
  reset_stored_under-after :
      (stored : OneTimeToken) (u : User)
      → reset_stored_under env w.session raw ≡ some stored
      → stored.is_used ≡ false
      → reset_stored_under env (after_reset stored u) raw ≡ some (spend stored)
  reset_stored_under-after stored u f n = ground (
    arith,
    find-update (is_consumable stored.id) (λ (r : OneTimeToken). str_eq r.token (env.sha256 raw))
        spend (λ r. refl) w.session.reset_tokens,
  )

  spent_is_refused :
      (stored : OneTimeToken)
      → reset_stored_under env w.session raw ≡ some stored
      → stored.is_used ≡ true
      → ((reset_password env raw new_password w).0 ≡ err repository_error)
        ⊎ ((reset_password env raw new_password w).0 ≡ err used_token)
  unfolding reset_password
  spent_is_refused stored f s = ground arith

module _ (env : Env) (w : World) (raw new_password : String) where
  -- A reset token is good for one reset: after one that returned, another with the same token and any
  -- password, while its row stands as the reset left it, raises `UsedTokenError` or fails at the
  -- database, and commits nothing.
  pub reset_password_once :
      (other_password : String) (later : World)
      → (reset_password env raw new_password w).0 ≡ ok tt
      → reset_stored_under env later.session raw
        ≡ reset_stored_under env (reset_password env raw new_password w).1.db raw
      → (((reset_password env raw other_password later).0 ≡ err repository_error)
          ⊎ ((reset_password env raw other_password later).0 ≡ err used_token))
        × ((reset_password env raw other_password later).1.db ≡ later.db)
  reset_password_once other_password later h same =
      let (stored, u, f, _, n, _, moved, _) = reset_password_sound env w raw new_password h in
      let spent : reset_stored_under env later.session raw ≡ some (spend stored) =
        same
        ∙ ap (λ t. reset_stored_under env t raw) moved
        ∙ reset_stored_under-after env w raw new_password stored u f n in
      let refused = spent_is_refused env later raw other_password (spend stored) spent refl in
      (
        refused,
        elim refused [
          | inl a ↦ reset_password_atomic env later raw other_password repository_error a
          | inr b ↦ reset_password_atomic env later raw other_password used_token b
        ],
      )

  -- After a reset the user has the new password, hashed, and the instant of the change, and every
  -- other column as before; none of the user's sessions is live.
  pub reset_password_effect :
      (reset_password env raw new_password w).0 ≡ ok tt
      → (u : User) × (find (user_has_id u.id) w.session.users ≡ some u)
        × (find (user_has_id u.id) (reset_password env raw new_password w).1.db.users
            ≡ some (record u {
              password_hash = env.hashpw w.draws new_password;
              password_changed_at = w.now;
            }))
        × (count (is_live u.id) (reset_password env raw new_password w).1.db.refresh_tokens ≡ 0)
  unfolding set_fields
  reset_password_effect h =
      let (stored, u, _, g, _, _, moved, _) = reset_password_sound env w raw new_password h in
      let own = find_by_own_id stored.user_id w.session.users u g in
      (
        u,
        own,
        rw moved (find-update_self (new_password_fields env w new_password) w.session.users u own),
        rw moved (live-revoke_all u.id w.session.refresh_tokens),
      )
