-- ===== src/Ai/Tests/Caching.antt =====
-- Calls of a cache.
use recentthink_ai_be.Common.{ℕ, ◌≡◌, refl, true, false, none, some, List, [], ◌∷◌}
use recentthink_ai_be.Ai.Json.{text, number}
use recentthink_ai_be.Ai.Cache.Provider
use recentthink_ai_be.Ai.Cache.Provider.{provider}
use recentthink_ai_be.Ai.Cache.Manager
use recentthink_ai_be.Ai.Cache.Manager.{
  CacheManager, CacheSettings, Statistics, record_hit, ttl_for_feature,
}
use recentthink_ai_be.Ai.Cache.Calls.{Call, found, told, done, perform_all}
use recentthink_ai_be.Ai.Cache.Counters.{counters_exact, Gain, count_found, count_missed}
use recentthink_ai_be.Ai.Cache.Promise.{AllRight}
use recentthink_ai_be.Ai.Cache.Promised.{cache_promise}
use recentthink_ai_be.Ai.Tests.Table.{table, table-Laws}

abbrev pub cache_settings : CacheSettings
cache_settings = record {
  cache_enabled = true;
  cache_default_ttl = 100;
  cache_ttl_leetcode = 90;
  cache_ttl_hackerrank = 80;
  cache_ttl_dsa_pattern = 70;
  cache_ttl_course_generator = 60;
  cache_ttl_interview = 50;
}

abbrev pub new_cache : CacheManager table
new_cache = record {
  settings = cache_settings;
  provider = record {
    default_ttl = 100;
    max_entries = 2;
    store = [];
    expired_count = 0;
    eviction_count = 0;
  };
  stats = record { hits = 0; misses = 0; total_lookup_ms = 0; lookup_count = 0 };
}

abbrev calls : List (ℕ × Call)
calls =
    (0, Call.set "a" (text "x") (some 10))
    ∷ (9, Call.get 2 "a")
    ∷ (1, Call.get 3 "a")
    ∷ (0, Call.exists "a")
    ∷ (5, Call.set "b" (number 1) none)
    ∷ (99, Call.get 1 "b")
    ∷ (0, Call.delete "b")
    ∷ []

answers :
    (perform_all table 0 calls new_cache).0
    ≡ done
      ∷ found (some (text "x"))
      ∷ found none
      ∷ told false
      ∷ done
      ∷ found (some (number 1))
      ∷ told true
      ∷ []
unfolding perform_all Manager.get Manager.set Manager.delete Manager.exists Provider.get
    Provider.set Provider.exists Provider.delete
answers = refl

ttl : ttl_for_feature cache_settings " Dsa " ≡ 70
unfolding ttl_for_feature
ttl = refl

new_provider : new_cache.provider ≡ provider table 2 100
unfolding provider
new_provider = refl

cache_promise_example : AllRight 100 0 (λ key. none) calls (perform_all table 0 calls new_cache).0
cache_promise_example = cache_promise table table-Laws 0 2 100 calls new_cache new_provider

counters_exact_example :
    Gain new_cache.stats
      (perform_all table 0 calls new_cache).1.stats
      (count_found (perform_all table 0 calls new_cache).0)
      (count_missed (perform_all table 0 calls new_cache).0)
counters_exact_example = counters_exact table 0 calls new_cache refl

abbrev stored : CacheManager table
stored = Manager.set table 5 "a" (text "x") (some 0) new_cache
