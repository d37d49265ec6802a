-- ===== src/Auth/Request.antt =====
-- The routes of the service (app/api): each request is one transaction scope on the shared database.
-- The internal routes are behind the service token, which is checked before they are reached.
use recentthink_ai_be.Common.{ℕ, String, Bool, Option, none, List, [], ◌∷◌}
use recentthink_ai_be.Auth.Action.{Env, World, Result, Action, pure, ◌>>=◌}
use recentthink_ai_be.Auth.Access.{get_current_active_user}
use recentthink_ai_be.Auth.Service.Verification
use recentthink_ai_be.Auth.Service.Session
use recentthink_ai_be.Auth.Service.Reset
use recentthink_ai_be.Auth.Service.Password
use recentthink_ai_be.Auth.Service.Account
use recentthink_ai_be.Auth.Service.Admin
use recentthink_ai_be.Auth.Service.State

pub data Request : Type 0 where
  register : String → String → String → String → Request
  login : String → String → Request
  refresh logout : String → Request
  me : String → Request
  verify_email resend_verification forgot_password : String → Request
  reset_password : String → String → Request
  change_password : String → String → String → Option String → Request
  account_status : String → Request
  disable_account : String → String → Request
  enable_account : String → String → Request
  delete_account : String → String → Bool → Request
  admin_login : String → String → Request
  admin_refresh admin_logout : String → Request
  block_user : ℕ → Option String → Request
  unblock_user deactivate_user activate_user delete_user : ℕ → Request
  user_state : ℕ → Request

-- the answer of a route, of which only the error matters here
abbrev done {ℓ} : {A : Type ℓ} → Action A → Action (Unit {0})
done m = do _ ← m; pure tt

module _ (env : Env) where
  unfoldable pub handle : Request → Action (Unit {0})
  unfolding get_current_active_user Session.register Session.login Session.refresh Session.logout
      Session.admin_login Session.admin_refresh Session.admin_logout Verification.verify_email
      Verification.resend_verification Reset.request_password_reset Reset.reset_password
      Password.change_password Account.get_status Account.disable_account Account.enable_account
      Account.delete_account Admin.block_user Admin.unblock_user Admin.deactivate_user
      Admin.activate_user Admin.delete_user_as_admin State.get_user_state
  handle (register f l e p) = done (Session.register env f l e p)
  handle (login e p) = done (Session.login env e p none)
  handle (refresh t) = done (Session.refresh env t none)
  handle (logout t) = Session.logout env t
  handle (me t) = done (get_current_active_user env t)
  handle (verify_email t) = done (Verification.verify_email env t)
  handle (resend_verification e) = Verification.resend_verification env e
  handle (forgot_password e) = Reset.request_password_reset env e
  handle (reset_password t p) = Reset.reset_password env t p
  handle (change_password a c n r) = do
    u ← get_current_active_user env a
    Password.change_password env u c n r
  handle (account_status a) =
      done (do u ← get_current_active_user env a; pure (Account.get_status u))
  handle (disable_account a p) = do
    u ← get_current_active_user env a
    done (Account.disable_account env u p)
  handle (enable_account e p) = done (Account.enable_account env e p)
  handle (delete_account a p c) = do
    u ← get_current_active_user env a
    Account.delete_account env u p c
  handle (admin_login e p) = done (Session.admin_login env e p)
  handle (admin_refresh t) = done (Session.admin_refresh env t)
  handle (admin_logout t) = Session.admin_logout env t
  handle (block_user i r) = done (Admin.block_user env i r)
  handle (unblock_user i) = done (Admin.unblock_user env i)
  handle (deactivate_user i) = done (Admin.deactivate_user env i)
  handle (activate_user i) = done (Admin.activate_user env i)
  handle (delete_user i) = Admin.delete_user_as_admin env i
  handle (user_state i) = done (State.get_user_state env i)

  -- `get_db`: a request has a session of its own, which begins at what is committed
  abbrev pub begin : World → World
  begin w = record w { session = w.db }

  unfoldable pub serve : Request → World → Result (Unit {0}) × World
  unfolding handle
  serve r w = handle r (begin w)

  -- requests one after another, at the instants when they come
  unfoldable pub run : List (ℕ × Request) → World → World
  unfolding serve
  run [] w = w
  run ((now, r) ∷ rs) w = run rs (serve r (record w { now = now })).1
