-- ===== src/Ai/Cache/Reading.antt =====
-- cache/cache_manager.py: a value that was set is read back, unless the cache is off.
use recentthink_ai_be.Common.{
  ℕ, ◌+◌, ◌≤◌, ◌<◌, ◌≡◌, refl, String, true, false, Option, none, some, arith, leb,
}
use recentthink_ai_be.Ai.Json.{Json, not_none}
use recentthink_ai_be.Ai.Cache.Backing.{Backing, Laws}
use recentthink_ai_be.Ai.Cache.Provider.{Provider, get_entry, resolved_ttl}
use recentthink_ai_be.Ai.Cache.Provider
use recentthink_ai_be.Ai.Cache.Manager
use recentthink_ai_be.Ai.Cache.Manager.{CacheManager, counted, record_hit}

module _ (b : Backing) (laws : Laws b) where
  resolved_positive :
      (p : Provider b) (ttl : Option ℕ) → 1 ≤ p.default_ttl → 1 ≤ resolved_ttl b p ttl
  resolved_positive p none h = h
  resolved_positive p (some t) h = ground arith

  get_entry_fresh :
      (now : ℕ) (key : String) (p : Provider b) (value : Json) (expires_at : ℕ)
      → now < expires_at
      → not_none (some value) ≡ some value
      → get_entry b now key p (some (record { value = value; expires_at = expires_at }))
        ≡ (some value, p)
  get_entry_fresh now key p value expires_at lt there =
      let fresh : leb expires_at now ≡ false = ground arith in rw (fresh, there) refl

  -- what the provider reads at once
  pub get-set_provider :
      (now : ℕ) (key : String) (value : Json) (ttl : Option ℕ) (p : Provider b)
      → 1 ≤ p.default_ttl
      → not_none (some value) ≡ some value
      → Provider.get b now key (Provider.set b now key value ttl p)
        ≡ (some value, Provider.set b now key value ttl p)
  unfolding Provider.get Provider.set
  get-set_provider now key value ttl p lives there =
      rw
        (laws.find-put now key (record { value = value; expires_at = now + resolved_ttl b p ttl })
          p.store)
        (get_entry_fresh now key (Provider.set b now key value ttl p) value
          (now + resolved_ttl b p ttl) (omega (arith, resolved_positive p ttl lives)) there)

  -- A value other than `None` that is set in an enabled cache is found by a look-up of its key in the
  -- same second, whatever its lifetime and however full the cache, and is a hit; nothing else of the
  -- cache changes. A cache that is off sets nothing and finds nothing, and does not count the look-up.
  pub set_then_get :
      (now elapsed : ℕ) (key : String) (value : Json) (ttl : Option ℕ) (m : CacheManager b)
      → 1 ≤ m.provider.default_ttl
      → not_none (some value) ≡ some value
      → let stored = Manager.set b now key value ttl m in
        (m.settings.cache_enabled ≡ true
          → Manager.get b now elapsed key stored
            ≡ (some value, record stored { stats = record_hit elapsed m.stats }))
        × (m.settings.cache_enabled ≡ false → Manager.get b now elapsed key stored ≡ (none, m))
  unfolding Manager.get Manager.set
  set_then_get now elapsed key value ttl m lives there = (
    λ on. rw (on, get-set_provider now key value ttl m.provider lives there) refl,
    λ off. rw off refl,
  )
