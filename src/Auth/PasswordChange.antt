-- ===== src/Auth/PasswordChange.antt =====
-- Changing a password (`PasswordManagementService.change_password`).
use recentthink_ai_be.Common.{
  String, true, false, Option, none, some, arith, if◌then◌else◌, Bool, ◌≡◌, ◌&&◌,
}
use recentthink_ai_be.Auth.Model.{User, RefreshToken, is_live}
use recentthink_ai_be.Auth.Action.{Env, World, Error, ok, err}
use recentthink_ai_be.Auth.Fields.{set_fields}
use recentthink_ai_be.Auth.Repo.Users.{update_where}
use recentthink_ai_be.Auth.Repo.Refresh.{revoke_where, is_other}
use recentthink_ai_be.Auth.Service.Password.{change_password, is_own_session}
use recentthink_ai_be.Auth.Rotation.{stored_under}
use recentthink_ai_be.Auth.Redemption.{new_password_fields}

module _ (env : Env) (w : World) (u : User) (current new_password : String)
    (presented : Option String) where
  -- A change of the password that begins in a new transaction is all or nothing: if it raises, for
  -- whatever reason and at whatever call, nothing of it is committed.
  pub change_password_atomic :
      (e : Error)
      → w.session ≡ w.db
      → (change_password env u current new_password presented w).0 ≡ err e
      → (change_password env u current new_password presented w).1.db ≡ w.db
  unfolding change_password
  change_password_atomic e s h = ground arith

  -- the tokens that the change revokes: all of the user's live ones, but for the presented one if
  -- the setting keeps it and it is a live one of the same user
  abbrev pub is_ended : RefreshToken → Bool
  is_ended = elim presented [
    | none ↦ is_live u.id
    | some raw ↦
        if env.settings.keep_current_session && is_own_session u.id (stored_under env w.session raw)
        then is_other u.id (env.sha256 raw)
        else is_live u.id
  ]

  -- A change of the password that returns was asked for with the current password and a new one
  -- that does not verify against its hash. It commits the new password with the instant of the
  -- change, and the revocation of the other sessions: of all of them, unless the setting keeps the
  -- presented one and that is a live one of the same user. It drops the cached state of the user.
  pub change_password_sound :
      (change_password env u current new_password presented w).0 ≡ ok tt
      → (env.checkpw current u.password_hash ≡ true)
        × (env.checkpw new_password u.password_hash ≡ false)
        × ((change_password env u current new_password presented w).1.db
            ≡ revoke_where is_ended
                (update_where u.id (set_fields (new_password_fields env w new_password)) w.session))
        × ((change_password env u current new_password presented w).1.cache u.id ≡ none)
  unfolding change_password
  change_password_sound h = (ground arith, ground arith, ground arith, ground arith)
