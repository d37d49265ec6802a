-- ===== src/Auth/Tests/Sessions.antt =====
-- Signing in, refreshing and signing out.
use recentthink_ai_be.Common.{◌+◌, true, none, arith, ◌≡◌, ◌≢◌, refl, Distinct}
use recentthink_ai_be.Auth.Model.{User, RefreshToken}
use recentthink_ai_be.Auth.Action.{World, ok, err, is_ok, repository_error, invalid_credentials}
use recentthink_ai_be.Auth.Repo.Refresh.{insert_token}
use recentthink_ai_be.Auth.Service.Session.{lacks_role, login, refresh, logout}
use recentthink_ai_be.Auth.Rotation.{IsGranted, rotated, refresh_sound, refresh_complete}
use recentthink_ai_be.Auth.Reuse.{IsRejected, reuse_ends_sessions, refresh_once}
use recentthink_ai_be.Auth.SignIn.{IsAdmitted, session_row, login_sound}
use recentthink_ai_be.Auth.Tests.Data.{env, world, alice, live, revoked}

refreshed : (refresh env "live" none world).0 ≡ ok ("minted", "new")
unfolding refresh
refreshed = refl

granted : IsGranted env world "live" none live alice
granted = record {
  is_stored = refl;
  not_revoked = refl;
  not_expired = omega arith;
  has_user = refl;
  not_blocked = refl;
  active = refl;
  role_fits = unfold lacks_role in refl;
}

refresh_sound_example :
    (stored : RefreshToken) × (u : User) × IsGranted env world "live" none stored u
    × ("new" ≡ env.token_urlsafe world.draws)
    × ((refresh env "live" none world).1.db ≡ rotated env world "live" none stored u)
refresh_sound_example = refresh_sound env world "live" none ("minted", "new") refreshed

refresh_complete_example : is_ok (refresh env "live" none world).0 ≡ true
refresh_complete_example = refresh_complete env world "live" none (λ n. refl) live alice granted

rows-Distinct : Distinct (λ (r : RefreshToken). r.id) world.session.refresh_tokens
rows-Distinct = (refl, (refl, tt))

reuse_ends_sessions_example : IsRejected 0 (refresh env "revoked" none world)
reuse_ends_sessions_example = reuse_ends_sessions env world "revoked" none revoked refl refl

-- the same request once more, on what the first one left
abbrev after_refresh : World
after_refresh = let w = (refresh env "live" none world).1 in record w { session = w.db }

refresh_once_example : IsRejected 0 (refresh env "live" none after_refresh)
refresh_once_example =
    refresh_once env world "live" none none ("minted", "new") live after_refresh refreshed refl refl

logged_out : (logout env "live" world).0 ≡ ok tt
unfolding logout
logged_out = refl

abbrev after_logout : World
after_logout = let w = (logout env "live" world).1 in record w { session = w.db }

logged_in : (login env "alice@x" "secret" none world).0 ≡ ok (("minted", "new"), alice)
unfolding login
logged_in = refl

login_sound_example :
    IsAdmitted env world "alice@x" "secret" none alice
    × ("new" ≡ env.token_urlsafe (world.draws + 1))
    × ((login env "alice@x" "secret" none world).1.db
        ≡ insert_token (session_row env world "alice@x" "secret" none alice) world.session)
login_sound_example =
    login_sound env world "alice@x" "secret" none ("minted", "new") alice logged_in

admitted : IsAdmitted env world "alice@x" "secret" none alice
admitted = record {
  is_known = refl;
  password_fits = refl;
  role_fits = unfold lacks_role in refl;
  not_blocked = refl;
  active = refl;
}

wrong_password : (login env "alice@x" "guess" none world).0 ≡ err invalid_credentials
unfolding login
wrong_password = refl

not_repository_error : invalid_credentials ≢ repository_error
not_repository_error = λ e. cc
