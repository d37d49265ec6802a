-- ===== src/Auth/Reuse.antt =====
-- Refresh tokens that are presented again (`AuthService.refresh`), and after a logout
-- (`AuthService.logout`).
use recentthink_ai_be.Common.{
  ◌∙◌, ap, ℕ, String, true, Option, some, List, arith, ◌≡◌, str_eq, find-update, count, update, ◌⊎◌,
  refl, find-append_some,
}
use recentthink_ai_be.Auth.Model.{Role, RefreshToken, is_live, refresh_has_id}
use recentthink_ai_be.Auth.Action.{Env, World, Result, ok, err, revoked_token, repository_error}
use recentthink_ai_be.Auth.Repo.Refresh.{revoke_where, insert_token, revoke}
use recentthink_ai_be.Auth.Repo.Sessions.{live-revoke_all}
use recentthink_ai_be.Auth.Service.Session.{refresh, logout, Tokens}
use recentthink_ai_be.Auth.Rotation.{stored_under, refresh_sound}

-- the answer to a refresh with a token that is revoked, the tokens of the user being `user_id`'s
abbrev pub IsRejected : ℕ → Result Tokens × World → Type 0
IsRejected user_id (r, w) =
    (r ≡ err repository_error)
    ⊎ ((r ≡ err revoked_token) × (count (is_live user_id) w.db.refresh_tokens ≡ 0))

module _ (env : Env) (w : World) (raw : String) where
  -- The reuse of a revoked token is never granted, and where the revocation goes through, no live
  -- token of its user is left in the database.
  pub reuse_ends_sessions :
      (roles : Option (List Role)) (stored : RefreshToken)
      → stored_under env w.session raw ≡ some stored
      → stored.is_revoked ≡ true
      → IsRejected stored.user_id (refresh env raw roles w)
  unfolding refresh
  reuse_ends_sessions roles stored f r =
      ground (arith, live-revoke_all stored.user_id w.session.refresh_tokens)

  stored_under-rotated :
      (stored row : RefreshToken)
      → stored_under env w.session raw ≡ some stored
      → stored_under env (insert_token row (revoke_where (refresh_has_id stored.id) w.session)) raw
        ≡ some (revoke stored)
  stored_under-rotated stored row f =
      find-append_some _ (update (refresh_has_id stored.id) revoke w.session.refresh_tokens) _ _ (
        ground (
          arith,
          find-update (refresh_has_id stored.id)
              (λ (r : RefreshToken). str_eq r.token (env.sha256 raw)) revoke (λ r. refl)
              w.session.refresh_tokens,
        ))

module _ (env : Env) (w : World) (raw : String) where
  -- A token that was refreshed once is revoked: any later use of it, with whatever roles, while its
  -- row stands in the database as the refresh left it, is rejected and ends the user's sessions.
  pub refresh_once :
      (roles later_roles : Option (List Role)) (ts : Tokens) (stored : RefreshToken) (later : World)
      → (refresh env raw roles w).0 ≡ ok ts
      → stored_under env w.session raw ≡ some stored
      → stored_under env later.session raw ≡ stored_under env (refresh env raw roles w).1.db raw
      → IsRejected stored.user_id (refresh env raw later_roles later)
  refresh_once roles later_roles ts stored later e f same =
      let (stored', u, g, _, moved) = refresh_sound env w raw roles ts e in
      let now_revoked : stored_under env later.session raw ≡ some (revoke stored') =
        same
        ∙ ap (λ t. stored_under env t raw) moved
        ∙ stored_under-rotated env w raw stored' _ g.is_stored in
      let same_row : stored ≡ stored' = cc (f, g.is_stored) in
      rw same_row (reuse_ends_sessions env later raw later_roles (revoke stored') now_revoked refl)

  logout_revokes :
      (stored : RefreshToken)
      → stored_under env w.session raw ≡ some stored
      → w.session ≡ w.db
      → (logout env raw w).0 ≡ ok tt
      → stored_under env (logout env raw w).1.db raw ≡ some (revoke stored)
  unfolding logout
  logout_revokes stored f fresh e = ground (
    arith,
    find-update (refresh_has_id stored.id) (λ (r : RefreshToken). str_eq r.token (env.sha256 raw))
        revoke (λ r. refl) w.session.refresh_tokens,
  )

  -- After a logout that succeeds in a new transaction, any later refresh with the same token, while
  -- its row stands as the logout left it, is rejected and ends the user's sessions.
  pub logout_ends_session :
      (roles : Option (List Role)) (stored : RefreshToken) (later : World)
      → stored_under env w.session raw ≡ some stored
      → w.session ≡ w.db
      → (logout env raw w).0 ≡ ok tt
      → stored_under env later.session raw ≡ stored_under env (logout env raw w).1.db raw
      → IsRejected stored.user_id (refresh env raw roles later)
  logout_ends_session roles stored later f fresh e same =
      reuse_ends_sessions env later raw roles (revoke stored)
        (same ∙ logout_revokes stored f fresh e) refl
