-- ===== src/Auth/Tests/Accounts.antt =====
-- Locking accounts out, and disabling, enabling and deleting them.
use recentthink_ai_be.Common.{
  ◌||◌, ◌==◌, ◌++◌, not, true, false, none, some, [], ◌∷◌, ◌≡◌, ◌≢◌, refl, find, count, select,
  Distinct,
}
use recentthink_ai_be.Auth.Model.{
  User, RefreshToken, OneTimeToken, user_has_id, is_live, is_unused, role_eq, admin, super_admin,
}
use recentthink_ai_be.Auth.Action.{World, ok, err, repository_error}
use recentthink_ai_be.Auth.Fields.{set_fields}
use recentthink_ai_be.Auth.Repo.Users.{update_where}
use recentthink_ai_be.Auth.Repo.Refresh.{revoke_where}
use recentthink_ai_be.Auth.Repo.Verifications
use recentthink_ai_be.Auth.Service.Session.{login}
use recentthink_ai_be.Auth.Service.Admin.{block_user}
use recentthink_ai_be.Auth.Service.Account.{disable_account, enable_account, delete_account}
use recentthink_ai_be.Auth.Lockout.{
  block_fields, block_user_interrupted, block_user_effect, blocked_cannot_sign_in,
}
use recentthink_ai_be.Auth.Account.{delete_account_effect, delete_account_interrupted}
use recentthink_ai_be.Auth.Tests.Data.{env, failing, world, alice, root}

abbrev blocked : User
blocked = record alice { is_blocked = true; blocked_at = some 20; blocked_reason = some "spam" }

block_returns : (block_user env 0 (some "spam") world).0 ≡ ok blocked
unfolding block_user
block_returns = refl

block_user_effect_example :
    (u : User) × (find (user_has_id 0) world.session.users ≡ some u)
    × ((role_eq u.role admin || role_eq u.role super_admin) ≡ false)
    × (u.is_blocked ≡ false)
    × (blocked
        ≡ record u { is_blocked = true; blocked_at = some world.now; blocked_reason = some "spam" })
    × (find (user_has_id 0) (block_user env 0 (some "spam") world).1.db.users ≡ some blocked)
    × (count (is_live 0) (block_user env 0 (some "spam") world).1.db.refresh_tokens ≡ 0)
    × ((block_user env 0 (some "spam") world).1.cache 0 ≡ none)
block_user_effect_example = block_user_effect env world 0 (some "spam") blocked block_returns

-- the database fails at the revocation
revocation_fails : (failing 5).fault 5 ≢ none
revocation_fails = λ e. cc

block_user_interrupted_example :
    ((block_user (failing 5) 0 none world).0 ≡ err repository_error)
    × ((block_user (failing 5) 0 none world).1.db
        ≡ update_where 0 (set_fields (block_fields (failing 5) world 0 none)) world.session)
    × ((block_user (failing 5) 0 none world).1.cache ≡ world.cache)
block_user_interrupted_example =
    block_user_interrupted (failing 5) world 0 none alice refl refl refl refl refl refl refl refl
      revocation_fails

-- what the block left, with a second account of which the address and password are known
abbrev after_block : World
after_block = let w = (block_user env 0 none world).1 in record w { session = w.db }

after_block-Distinct : Distinct (λ (x : User). x.id) after_block.session.users
unfolding block_user
after_block-Distinct = (refl, (refl, (refl, tt)))

block_returns_too : (block_user env 0 none world).0 ≡ ok (record blocked { blocked_reason = none })
unfolding block_user
block_returns_too = refl

root_signs_in : (login env "root@x" "secret" none after_block).0 ≡ ok (("minted", "new"), root)
unfolding login block_user
root_signs_in = refl

blocked_cannot_sign_in_example : root.id ≢ 0
blocked_cannot_sign_in_example =
    blocked_cannot_sign_in env world after_block 0 none "root@x" "secret" none
      (record blocked { blocked_reason = none }) root ("minted", "new") block_returns_too refl
      after_block-Distinct root_signs_in

disable_returns : (disable_account env alice "secret" world).0 ≡ ok (some 20)
unfolding disable_account
disable_returns = refl

delete_returns : (delete_account env alice "secret" true world).0 ≡ ok tt
unfolding delete_account
delete_returns = refl

delete_account_effect_example :
    (true ≡ true)
    × (env.checkpw "secret" alice.password_hash ≡ true)
    × ((delete_account env alice "secret" true world).1.db.users
        ≡ select (λ v. not (user_has_id 0 v)) world.session.users)
    × (count
          (λ (r : RefreshToken). r.user_id == 0)
          (delete_account env alice "secret" true world).1.db.refresh_tokens
        ≡ 0)
    × (count
          (λ (r : OneTimeToken). r.user_id == 0)
          (delete_account env alice "secret" true world).1.db.reset_tokens
        ≡ 0)
    × (count
          (λ (r : OneTimeToken). r.user_id == 0)
          (delete_account env alice "secret" true world).1.db.verification_tokens
        ≡ 0)
    × ((delete_account env alice "secret" true world).1.cache 0 ≡ none)
    × ((delete_account env alice "secret" true world).1.deleted ≡ world.deleted ++ 0 ∷ [])
delete_account_effect_example = delete_account_effect env world alice "secret" true delete_returns

-- the database fails at the invalidation of the reset tokens
invalidation_fails : (failing 3).fault 3 ≢ none
invalidation_fails = λ e. cc

delete_account_interrupted_example :
    ((delete_account (failing 3) alice "secret" true world).0 ≡ err repository_error)
    × ((delete_account (failing 3) alice "secret" true world).1.db
        ≡ Verifications.spend_where (is_unused 0) (revoke_where (is_live 0) world.session))
delete_account_interrupted_example =
    delete_account_interrupted (failing 3) world alice "secret" refl refl refl refl
      invalidation_fails

enable_returns : (enable_account env "bob@x" "secret" world).0 ≡ ok none
unfolding enable_account
enable_returns = refl
