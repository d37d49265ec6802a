-- ===== src/Auth/Service/State.antt =====
-- services/user_state_service.py and services/user_state_cache.py
use recentthink_ai_be.Common.{ℕ, Option, none, some, ◌==◌, if◌then◌else◌}
use recentthink_ai_be.Auth.Model.{User, role_value}
use recentthink_ai_be.Auth.Action.{
  Env, Action, UserState, pure, gets, modify, or_raise, ◌>>=◌, ◌>>◌, user_not_found,
}
use recentthink_ai_be.Auth.Repo.Users.{get_user_by_id}

-- the fields of the user that the gateway needs
unfoldable pub snapshot : User → UserState
unfolding role_value
snapshot u = record {
  user_id = u.id;
  is_active = u.is_active;
  is_blocked = u.is_blocked;
  role = role_value u.role;
  pwd_ts = u.password_changed_at;
}

-- `set_cached_user_state`
abbrev pub set_cached : UserState → Action (Unit {0})
set_cached s = modify (λ w. record w { cache = λ k. if k == s.user_id then some s else w.cache k })

module _ (env : Env) where
  -- after a miss of the cache
  unfoldable pub load_state : ℕ → Action UserState
  unfolding get_user_by_id snapshot
  load_state user_id = do
    u ← or_raise (← get_user_by_id env user_id) user_not_found
    set_cached (snapshot u)
    pure (snapshot u)

  unfoldable pub state_or_load : ℕ → Option UserState → Action UserState
  unfolding load_state
  state_or_load user_id none = load_state user_id
  state_or_load user_id (some cached) = pure cached

  unfoldable pub get_user_state : ℕ → Action UserState
  unfolding state_or_load
  get_user_state user_id = do cached ← gets (λ w. w.cache user_id); state_or_load user_id cached
