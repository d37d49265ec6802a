-- ===== src/Auth/Tests/Passwords.antt =====
-- Resetting and changing a password.
use recentthink_ai_be.Common.{◌<◌, true, false, none, some, ◌≡◌, ◌⊎◌, refl, find}
use recentthink_ai_be.Auth.Model.{User, OneTimeToken, user_has_id}
use recentthink_ai_be.Auth.Action.{
  World, ok, err, sql, database, used_token, password_reuse, repository_error,
}
use recentthink_ai_be.Auth.Fields.{set_fields}
use recentthink_ai_be.Auth.Repo.Users.{update_where}
use recentthink_ai_be.Auth.Repo.Refresh.{revoke_where}
use recentthink_ai_be.Auth.Service.Reset.{reset_password, request_password_reset}
use recentthink_ai_be.Auth.Service.Password.{change_password}
use recentthink_ai_be.Auth.Redemption.{
  reset_stored_under, after_reset, new_password_fields, reset_password_atomic, reset_password_sound,
  reset_password_once,
}
use recentthink_ai_be.Auth.PasswordChange.{is_ended, change_password_sound}
use recentthink_ai_be.Auth.Tests.Data.{env, failing, world, alice}

reset : (reset_password env "unused" "fresh" world).0 ≡ ok tt
unfolding reset_password
reset = refl

-- the database fails at the commit
reset_failed : (reset_password (failing 6) "unused" "fresh" world).0 ≡ err (sql database)
unfolding reset_password
reset_failed = refl

reset_password_atomic_example : (reset_password (failing 6) "unused" "fresh" world).1.db ≡ world.db
reset_password_atomic_example =
    reset_password_atomic (failing 6) world "unused" "fresh" (sql database) reset_failed

reset_password_sound_example :
    (stored : OneTimeToken) × (u : User) × (reset_stored_under env world.session "unused"
      ≡ some stored)
    × (find (user_has_id stored.user_id) world.session.users ≡ some u)
    × (stored.is_used ≡ false)
    × (world.now < stored.expires_at)
    × ((reset_password env "unused" "fresh" world).1.db
        ≡ after_reset env world "unused" "fresh" stored u)
    × ((reset_password env "unused" "fresh" world).1.cache u.id ≡ none)
reset_password_sound_example = reset_password_sound env world "unused" "fresh" reset

abbrev after : World
after =
    let w = (reset_password env "unused" "fresh" world).1 in record w { session = w.db; now = 30 }

reset_password_once_example :
    (((reset_password env "unused" "again" after).0 ≡ err repository_error)
      ⊎ ((reset_password env "unused" "again" after).0 ≡ err used_token))
    × ((reset_password env "unused" "again" after).1.db ≡ after.db)
reset_password_once_example =
    reset_password_once env world "unused" "fresh" "again" after reset refl

changed : (change_password env alice "secret" "fresh" (some "live") world).0 ≡ ok tt
unfolding change_password
changed = refl

change_refused : (change_password env alice "secret" "secret" none world).0 ≡ err password_reuse
unfolding change_password
change_refused = refl

change_password_sound_example :
    (env.checkpw "secret" alice.password_hash ≡ true)
    × (env.checkpw "fresh" alice.password_hash ≡ false)
    × ((change_password env alice "secret" "fresh" (some "live") world).1.db
        ≡ revoke_where
            (is_ended env world alice "secret" "fresh" (some "live"))
            (update_where 0 (set_fields (new_password_fields env world "fresh")) world.session))
    × ((change_password env alice "secret" "fresh" (some "live") world).1.cache 0 ≡ none)
change_password_sound_example =
    change_password_sound env world alice "secret" "fresh" (some "live") changed

requested : (request_password_reset env "alice@x" world).0 ≡ ok tt
unfolding request_password_reset
requested = refl
