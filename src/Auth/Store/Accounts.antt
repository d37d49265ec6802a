-- ===== src/Auth/Store/Accounts.antt =====
-- The use cases on accounts keep to the changes of `Step`.
use recentthink_ai_be.Common.{ℕ, String, Bool, Option, none, some}
use recentthink_ai_be.Auth.Model.{User}
use recentthink_ai_be.Auth.Action.{Env, UserState}
use recentthink_ai_be.Auth.Access.{get_current_active_user}
use recentthink_ai_be.Auth.Fields.{new_email}
use recentthink_ai_be.Auth.Service.Password
use recentthink_ai_be.Auth.Service.Account
use recentthink_ai_be.Auth.Service.Admin
use recentthink_ai_be.Auth.Service.State
use recentthink_ai_be.Auth.Store.{Store}
use recentthink_ai_be.Auth.Store.Keeps.{Keeps}
use recentthink_ai_be.Auth.Store.Calls.{Tracks}
use recentthink_ai_be.Auth.Store.Services.{repo_rules, resolve-Tracks}

module _ (env : Env) (s : Store) where
  revoke_sessions-Tracks :
      (i : ℕ) (o : Option String) → Keeps (Tracks s) (Password.revoke_sessions env i o)
  unfolding Password.revoke_sessions
  revoke_sessions-Tracks i none = search repo_rules
  revoke_sessions-Tracks i (some raw) = search repo_rules depth 9

  pub change-Tracks :
      (u : User) (c n : String) (r : Option String)
      → Keeps (Tracks s) (Password.change_password env u c n r)
  unfolding Password.change_password new_email
  change-Tracks u c n r = search (repo_rules, revoke_sessions-Tracks) depth 18

  publish-Tracks : (i : ℕ) → Keeps (Tracks s) (Account.publish_account_deleted i)
  publish-Tracks i = record { at = λ w t. record { committed = t.committed; pending = t.pending } }

  pub disable-Tracks : (u : User) (p : String) → Keeps (Tracks s) (Account.disable_account env u p)
  unfolding Account.disable_account new_email
  disable-Tracks u p = search repo_rules depth 18

  pub enable-Tracks : (e p : String) → Keeps (Tracks s) (Account.enable_account env e p)
  unfolding Account.enable_account new_email
  enable-Tracks e p = search repo_rules depth 18

  pub delete-Tracks :
      (u : User) (p : String) (c : Bool) → Keeps (Tracks s) (Account.delete_account env u p c)
  unfolding Account.delete_account
  delete-Tracks u p c = search (repo_rules, publish-Tracks) depth 18

  require-Tracks : (i : ℕ) → Keeps (Tracks s) (Admin.require_user env i)
  unfolding Admin.require_user
  require-Tracks i = search repo_rules

  reject-Tracks : (u : User) → Keeps (Tracks s) (Admin.reject_admin_target u)
  unfolding Admin.reject_admin_target
  reject-Tracks u = search repo_rules

  ruleset admin_rules = (repo_rules, require-Tracks, reject-Tracks, publish-Tracks)

  pub block-Tracks : (i : ℕ) (r : Option String) → Keeps (Tracks s) (Admin.block_user env i r)
  unfolding Admin.block_user new_email
  block-Tracks i r = search admin_rules depth 16

  pub unblock-Tracks : (i : ℕ) → Keeps (Tracks s) (Admin.unblock_user env i)
  unfolding Admin.unblock_user new_email
  unblock-Tracks i = search admin_rules depth 16

  pub deactivate-Tracks : (i : ℕ) → Keeps (Tracks s) (Admin.deactivate_user env i)
  unfolding Admin.deactivate_user new_email
  deactivate-Tracks i = search admin_rules depth 16

  pub activate-Tracks : (i : ℕ) → Keeps (Tracks s) (Admin.activate_user env i)
  unfolding Admin.activate_user new_email
  activate-Tracks i = search admin_rules depth 16

  pub delete_as_admin-Tracks : (i : ℕ) → Keeps (Tracks s) (Admin.delete_user_as_admin env i)
  unfolding Admin.delete_user_as_admin
  delete_as_admin-Tracks i = search admin_rules depth 16

  cached-Tracks : (c : UserState) → Keeps (Tracks s) (State.set_cached c)
  cached-Tracks c = record { at = λ w t. record { committed = t.committed; pending = t.pending } }

  load-Tracks : (i : ℕ) → Keeps (Tracks s) (State.load_state env i)
  unfolding State.load_state
  load-Tracks i = search (repo_rules, cached-Tracks) depth 9

  state_or_load-Tracks :
      (i : ℕ) (o : Option UserState) → Keeps (Tracks s) (State.state_or_load env i o)
  unfolding State.state_or_load
  state_or_load-Tracks i none = load-Tracks i
  state_or_load-Tracks i (some c) = search repo_rules

  pub state-Tracks : (i : ℕ) → Keeps (Tracks s) (State.get_user_state env i)
  unfolding State.get_user_state
  state-Tracks i = search (repo_rules, state_or_load-Tracks)

  pub active-Tracks : (t : String) → Keeps (Tracks s) (get_current_active_user env t)
  unfolding get_current_active_user
  active-Tracks t = search (repo_rules, resolve-Tracks)
