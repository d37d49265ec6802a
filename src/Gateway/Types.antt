-- ===== src/Gateway/Types.antt =====
-- What the guard works on: the answers to a client, the cached user states, and the two clocks.
use recentthink_ai_be.Common.{ℕ, String, Bool, Option, none, some, if◌then◌else◌}

-- the status, detail and code of an error response
pub record Response : Type 0 where
  pub status : ℕ
  pub detail : String
  pub code : Option String

-- `CachedUserState` of auth/user_state_cache.py; an instant is a number of microseconds.
pub record CachedUserState : Type 0 where
  pub user_id : ℕ
  pub is_active : Bool
  pub is_blocked : Bool
  pub role : String
  pub pwd_ts : ℕ

-- `wall` is the time of day and `clock` the monotonic one. The store has a state and the instant, by
-- the second clock, at which it expires.
pub record Gate : Type 0 where
  pub wall : ℕ
  pub clock : ℕ
  pub store : ℕ → Option (CachedUserState × ℕ)

-- a check on the way of a request: a response that refuses it, or a value
pub data Verdict {ℓ} (A : Type ℓ) : Type ℓ where
  denied : Response → Verdict A
  passed : A → Verdict A

abbrev pub Check {ℓ} : Type ℓ → Type ℓ
Check A = Gate → Verdict A × Gate

infixl 5 ◌>>=◌ ◌>>◌
abbrev pub ◌>>=◌ {ℓ κ} : {A : Type ℓ} {B : Type κ} → Check A → (A → Check B) → Check B
◌>>=◌ m f g = let (v, g') = m g in elim v [ passed a ↦ f a g' | denied r ↦ (denied r, g') ]

abbrev pub ◌>>◌ {ℓ κ} : {A : Type ℓ} {B : Type κ} → Check A → Check B → Check B
m >> k = m >>= λ _. k

module _ {ℓ} {A : Type ℓ} where
  abbrev pub pure : A → Check A
  pure a g = (passed a, g)

  abbrev pub gets : (Gate → A) → Check A
  gets f g = (passed (f g), g)

  abbrev pub or_deny : Option A → Response → Check A
  or_deny none r g = (denied r, g)
  or_deny (some a) r g = (passed a, g)

abbrev pub deny_if : Bool → Response → Check (Unit {0})
deny_if b r g = (if b then denied r else passed tt, g)
