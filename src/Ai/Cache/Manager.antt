-- ===== src/Ai/Cache/Manager.antt =====
-- cache/cache_manager.py and cache/cache_statistics.py: the one entry point of the cache, which counts
-- what its look-ups find. Milliseconds are whole numbers.
use recentthink_ai_be.Common.{
  ℕ, suc, ◌+◌, String, Bool, false, Option, none, some, Dict, [], ◌∷◌, if◌then◌else◌,
}
use recentthink_ai_be.Common.Texts.{at_lowered}
use recentthink_ai_be.Ai.Json.{Json}
use recentthink_ai_be.Ai.Cache.Backing.{Backing}
use recentthink_ai_be.Ai.Cache.Provider.{Provider}
use recentthink_ai_be.Ai.Cache.Provider

-- `CacheStatistics`
pub record Statistics : Type 0 where
  pub hits : ℕ
  pub misses : ℕ
  pub total_lookup_ms : ℕ
  pub lookup_count : ℕ

unfoldable pub record_hit : ℕ → Statistics → Statistics
record_hit lookup_ms s = record s {
  hits = suc s.hits;
  total_lookup_ms = s.total_lookup_ms + lookup_ms;
  lookup_count = suc s.lookup_count;
}

unfoldable pub record_miss : ℕ → Statistics → Statistics
record_miss lookup_ms s = record s {
  misses = suc s.misses;
  total_lookup_ms = s.total_lookup_ms + lookup_ms;
  lookup_count = suc s.lookup_count;
}

-- the settings of the cache
pub record CacheSettings : Type 0 where
  pub cache_enabled : Bool
  pub cache_default_ttl : ℕ
  pub cache_ttl_leetcode : ℕ
  pub cache_ttl_hackerrank : ℕ
  pub cache_ttl_dsa_pattern : ℕ
  pub cache_ttl_course_generator : ℕ
  pub cache_ttl_interview : ℕ

abbrev pub ttl_of_feature : CacheSettings → Dict ℕ
ttl_of_feature s =
    ("leetcode", s.cache_ttl_leetcode)
    ∷ ("hackerrank", s.cache_ttl_hackerrank)
    ∷ ("dsa", s.cache_ttl_dsa_pattern)
    ∷ ("dsa_pattern", s.cache_ttl_dsa_pattern)
    ∷ ("course_generator", s.cache_ttl_course_generator)
    ∷ ("course", s.cache_ttl_course_generator)
    ∷ ("interview", s.cache_ttl_interview)
    ∷ []

unfoldable pub ttl_for_feature : CacheSettings → String → ℕ
unfolding at_lowered
ttl_for_feature s feature = at_lowered feature (ttl_of_feature s) s.cache_default_ttl

module _ (b : Backing) where
  pub record CacheManager : Type 0 where
    pub settings : CacheSettings
    pub provider : Provider b
    pub stats : Statistics

  abbrev pub counted : ℕ → Option Json × Provider b → CacheManager → Option Json × CacheManager
  counted elapsed (none, p) m =
      (none, record m { provider = p; stats = record_miss elapsed m.stats })
  counted elapsed (some v, p) m =
      (some v, record m { provider = p; stats = record_hit elapsed m.stats })

  -- `get`, of which the look-up takes `elapsed` milliseconds
  unfoldable pub get : ℕ → ℕ → String → CacheManager → Option Json × CacheManager
  unfolding record_hit record_miss
  get now elapsed key m =
      if m.settings.cache_enabled
      then counted elapsed (Provider.get b now key m.provider) m
      else (none, m)

  unfoldable pub set : ℕ → String → Json → Option ℕ → CacheManager → CacheManager
  set now key value ttl m =
      if m.settings.cache_enabled
      then record m { provider = Provider.set b now key value ttl m.provider }
      else m

  abbrev pub kept : Bool × Provider b → CacheManager → Bool × CacheManager
  kept (r, p) m = (r, record m { provider = p })

  unfoldable pub delete : ℕ → String → CacheManager → Bool × CacheManager
  delete now key m =
      if m.settings.cache_enabled then kept (Provider.delete b now key m.provider) m else (false, m)

  unfoldable pub exists : ℕ → String → CacheManager → Bool × CacheManager
  exists now key m =
      if m.settings.cache_enabled then kept (Provider.exists b now key m.provider) m else (false, m)

  -- `clear`, which does not ask whether the cache is enabled
  unfoldable pub clear : ℕ → CacheManager → ℕ × CacheManager
  clear now m =
      let (count, p) = Provider.clear b now m.provider in (count, record m { provider = p })
