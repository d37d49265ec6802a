-- ===== src/Auth/Lockout.antt =====
-- Locking an account out, by an administrator (`AdminUserManagementService`).
use recentthink_ai_be.Common.{
  subst, refl, ℕ, ◌+◌, String, true, false, Option, none, some, [], ◌∷◌, find, arith, ◌≡◌, ◌≢◌, inl,
  inr, count, Option-cases, Distinct, find_by_key, ◌||◌, List,
}
use recentthink_ai_be.Auth.Model.{
  Role, admin, super_admin, role_eq, User, user_has_id, user_has_email, is_live,
}
use recentthink_ai_be.Auth.Action.{Env, World, ok, err, repository_error, is_ok}
use recentthink_ai_be.Auth.Fields.{set_fields, Field}
use recentthink_ai_be.Auth.Repo.Users.{update_where}
use recentthink_ai_be.Auth.Repo.Refresh.{revoke_where}
use recentthink_ai_be.Auth.Repo.Sessions.{live-revoke_all}
use recentthink_ai_be.Auth.Repo.Rows.{find-update_where, find-id}
use recentthink_ai_be.Auth.Service.Session.{login, Tokens}
use recentthink_ai_be.Auth.SignIn.{login_sound}
use recentthink_ai_be.Auth.Service.Admin.{block_user, deactivate_user, delete_user_as_admin}

module _ (env : Env) (w : World) (i : ℕ) where
  -- An administrator's account is out of reach of the three actions that lock out: each raises, and
  -- commits nothing.
  pub admin_target_refused :
      (reason : Option String) (u : User)
      → find (user_has_id i) w.session.users ≡ some u
      → (role_eq u.role admin || role_eq u.role super_admin) ≡ true
      → ((is_ok (block_user env i reason w).0 ≡ false) × ((block_user env i reason w).1.db ≡ w.db))
        × ((is_ok (deactivate_user env i w).0 ≡ false) × ((deactivate_user env i w).1.db ≡ w.db))
        × ((is_ok (delete_user_as_admin env i w).0 ≡ false)
            × ((delete_user_as_admin env i w).1.db ≡ w.db))
  unfolding block_user deactivate_user delete_user_as_admin
  admin_target_refused reason u f a =
      ((ground arith, ground arith), (ground arith, ground arith), (ground arith, ground arith))

  -- the columns that a block writes
  abbrev pub block_fields : Option String → List Field
  block_fields reason =
      Field.is_blocked true ∷ Field.blocked_at (some w.now) ∷ Field.blocked_reason reason ∷ []

  block_from :
      (reason : Option String) (u r : User)
      → find (user_has_id i) w.session.users ≡ some u
      → (block_user env i reason w).0 ≡ ok r
      → (r ≡ set_fields (block_fields reason) u)
        × ((role_eq u.role admin || role_eq u.role super_admin) ≡ false)
        × (u.is_blocked ≡ false)
        × ((block_user env i reason w).1.db
            ≡ revoke_where
                (is_live i)
                (update_where i (set_fields (block_fields reason)) w.session))
        × ((block_user env i reason w).1.cache i ≡ none)
  unfolding block_user
  block_from reason u r f h = (ground arith, ground arith, ground arith, ground arith, ground arith)

  -- A block that the database interrupts after the commit of the user's row, at the revocation of the
  -- sessions, raises although the block is committed: the sessions stay live and the cached state of
  -- the user stays what it was.
  pub block_user_interrupted :
      (reason : Option String) (u : User)
      → find (user_has_id i) w.session.users ≡ some u
      → (role_eq u.role admin || role_eq u.role super_admin) ≡ false
      → u.is_blocked ≡ false
      → env.fault w.calls ≡ none
      → env.fault (w.calls + 1) ≡ none
      → env.fault (w.calls + 1 + 1) ≡ none
      → env.fault (w.calls + 1 + 1 + 1) ≡ none
      → env.fault (w.calls + 1 + 1 + 1 + 1) ≡ none
      → env.fault (w.calls + 1 + 1 + 1 + 1 + 1) ≢ none
      → ((block_user env i reason w).0 ≡ err repository_error)
        × ((block_user env i reason w).1.db
            ≡ update_where i (set_fields (block_fields reason)) w.session)
        × ((block_user env i reason w).1.cache ≡ w.cache)
  unfolding block_user
  block_user_interrupted reason u f a b c d e g k l = (ground arith, ground arith, ground arith)

  -- A block that returns was of a user who is no administrator and was not blocked. It leaves the
  -- user blocked, with the instant and the reason, and otherwise as before; no session of the user
  -- is live, and the cached state of the user is dropped.
  pub block_user_effect :
      (reason : Option String) (r : User)
      → (block_user env i reason w).0 ≡ ok r
      → (u : User) × (find (user_has_id i) w.session.users ≡ some u)
        × ((role_eq u.role admin || role_eq u.role super_admin) ≡ false)
        × (u.is_blocked ≡ false)
        × (r ≡ record u { is_blocked = true; blocked_at = some w.now; blocked_reason = reason })
        × (find (user_has_id i) (block_user env i reason w).1.db.users ≡ some r)
        × (count (is_live i) (block_user env i reason w).1.db.refresh_tokens ≡ 0)
        × ((block_user env i reason w).1.cache i ≡ none)
  unfolding set_fields
  block_user_effect reason r h = elim (Option-cases (find (user_has_id i) w.session.users)) [
    | inl unknown ↦ absurd (unfold block_user in ground arith)
    | inr (u, f) ↦
        let (same, role, free, moved, dropped) = block_from reason u r f h in
        (
          u,
          f,
          role,
          free,
          same,
          rw (moved, same)
              (ground (
                arith,
                find-update_where i i (block_fields reason) w.session.users,
                find-id i w.session.users u f,
              )),
          rw moved (live-revoke_all i w.session.refresh_tokens),
          dropped,
        )
  ]

module _ (env : Env) (w later : World) (i : ℕ) (reason : Option String) where
  -- While the tables stand as a block left them, and the identifiers of the users are distinct, no
  -- login with any address, password or roles returns the blocked user.
  pub blocked_cannot_sign_in :
      (email password : String) (roles : Option (List Role)) (r u : User) (ts : Tokens)
      → (block_user env i reason w).0 ≡ ok r
      → later.session ≡ (block_user env i reason w).1.db
      → Distinct (λ (x : User). x.id) later.session.users
      → (login env email password roles later).0 ≡ ok (ts, u)
      → u.id ≢ i
  blocked_cannot_sign_in email password roles r u ts h same distinct signed =
      let (_, _, _, _, changed, row, _, _) = block_user_effect env w i reason r h in
      let (admitted, _, _) = login_sound env later email password roles ts u signed in
      let own =
        find_by_key (λ (x : User). x.id) (user_has_email email) later.session.users u distinct
          admitted.is_known in
      λ e.
        let at_i : find (user_has_id i) later.session.users ≡ some u =
          subst (λ k. find (user_has_id k) later.session.users ≡ some u) e own in
        let kept : find (user_has_id i) later.session.users ≡ some r = rw same row in
        let blocked : r.is_blocked ≡ true = rw changed refl in
        cc (at_i, kept, blocked, admitted.not_blocked)
