-- ===== src/Gateway/Cache.antt =====
-- auth/user_state_cache.py; a lock makes each function one step.
use recentthink_ai_be.Common.{ℕ, ◌+◌, Option, none, some, ◌==◌, leb, if◌then◌else◌}
use recentthink_ai_be.Gateway.Types.{CachedUserState, Gate}

abbrev pub drop : ℕ → Gate → Gate
drop user_id g = record g { store = λ k. if k == user_id then none else g.store k }

-- an entry that has expired is removed
unfoldable pub get_cached : ℕ → Gate → Option CachedUserState × Gate
get_cached user_id g = elim (g.store user_id) [
  | none ↦ (none, g)
  | some (value, expires_at) ↦
      if leb expires_at g.clock then (none, drop user_id g) else (some value, g)
]

-- a time to live that is not positive stores nothing
unfoldable pub set_cached : CachedUserState → ℕ → Gate → Gate
set_cached state ttl g = if ttl == 0 then g else record g {
  store = λ k. if k == state.user_id then some (state, g.clock + ttl) else g.store k;
}

unfoldable pub invalidate : ℕ → Gate → Gate
invalidate user_id g = drop user_id g
