-- ===== src/Ai/Cache/Counters.antt =====
-- cache/cache_statistics.py: the counters count the look-ups.
use recentthink_ai_be.Common.{
  ℕ, suc, ◌+◌, ◌≡◌, refl, ap, ◌∙◌, Bool, true, Option, none, some, List, [], ◌∷◌, arith,
}
use recentthink_ai_be.Ai.Json.{Json}
use recentthink_ai_be.Ai.Cache.Backing.{Backing}
use recentthink_ai_be.Ai.Cache.Provider.{Provider}
use recentthink_ai_be.Ai.Cache.Provider
use recentthink_ai_be.Ai.Cache.Manager.{
  CacheManager, CacheSettings, Statistics, counted, kept, record_hit, record_miss,
}
use recentthink_ai_be.Ai.Cache.Calls.{
  Call, Answer, found, told, removed, done, perform, perform_all, perform-get, perform-set,
  perform-delete, perform_exists, perform_clear, settings-perform,
}

-- how many of the answers found something, and how many looked and found nothing
abbrev pub count_found : List Answer → ℕ
count_found [] = 0
count_found (found (some v) ∷ as_) = suc (count_found as_)
count_found (found none ∷ as_) = count_found as_
count_found (told t ∷ as_) = count_found as_
count_found (removed n ∷ as_) = count_found as_
count_found (done ∷ as_) = count_found as_

abbrev pub count_missed : List Answer → ℕ
count_missed [] = 0
count_missed (found (some v) ∷ as_) = count_missed as_
count_missed (found none ∷ as_) = suc (count_missed as_)
count_missed (told t ∷ as_) = count_missed as_
count_missed (removed n ∷ as_) = count_missed as_
count_missed (done ∷ as_) = count_missed as_

count_found-cons :
    (a : Answer) (as_ : List Answer)
    → count_found (a ∷ as_) ≡ count_found (a ∷ []) + count_found as_
count_found-cons (found none) as_ = omega arith
count_found-cons (found (some v)) as_ = omega arith
count_found-cons (told t) as_ = omega arith
count_found-cons (removed n) as_ = omega arith
count_found-cons done as_ = omega arith

count_missed-cons :
    (a : Answer) (as_ : List Answer)
    → count_missed (a ∷ as_) ≡ count_missed (a ∷ []) + count_missed as_
count_missed-cons (found none) as_ = omega arith
count_missed-cons (found (some v)) as_ = omega arith
count_missed-cons (told t) as_ = omega arith
count_missed-cons (removed n) as_ = omega arith
count_missed-cons done as_ = omega arith

-- what the counters gain
abbrev pub Gain : Statistics → Statistics → ℕ → ℕ → Type 0
Gain s s' hits misses =
    (s'.hits ≡ s.hits + hits)
    × (s'.misses ≡ s.misses + misses)
    × (s'.lookup_count ≡ s.lookup_count + hits + misses)

module _ (b : Backing) where
  Gain-counted :
      (elapsed : ℕ) (r : Option Json × Provider b) (m : CacheManager b)
      → Gain m.stats
          (counted b elapsed r m).1.stats
          (count_found (found (counted b elapsed r m).0 ∷ []))
          (count_missed (found (counted b elapsed r m).0 ∷ []))
  unfolding record_hit record_miss
  Gain-counted elapsed (none, p) m = (omega arith, omega arith, omega arith)
  Gain-counted elapsed (some v, p) m = (omega arith, omega arith, omega arith)

  stats-kept : (r : Bool × Provider b) (m : CacheManager b) → (kept b r m).1.stats ≡ m.stats
  stats-kept (r, p) m = refl

  Gain-perform :
      (now : ℕ) (call : Call) (m : CacheManager b)
      → m.settings.cache_enabled ≡ true
      → Gain m.stats
          (perform b now call m).1.stats
          (count_found ((perform b now call m).0 ∷ []))
          (count_missed ((perform b now call m).0 ∷ []))
  Gain-perform now (Call.get elapsed key) m e =
      rw (perform-get b now elapsed key m e)
        (Gain-counted elapsed (Provider.get b now key m.provider) m)
  Gain-perform now (Call.set key value ttl) m e =
      rw (perform-set b now key value ttl m e) (omega arith, omega arith, omega arith)
  Gain-perform now (Call.delete key) m e =
      rw (perform-delete b now key m e) (omega arith, omega arith, omega arith)
  Gain-perform now (Call.exists key) m e =
      rw (perform_exists b now key m e) (omega arith, omega arith, omega arith)
  Gain-perform now Call.clear m e =
      rw (perform_clear b now m) (omega arith, omega arith, omega arith)

  -- The counters of an enabled cache are exact: over any calls, the hits grow by the answers to
  -- look-ups that found a value, the misses by those that found none, and the look-ups by both. No
  -- other call counts.
  pub counters_exact :
      (now : ℕ) (calls : List (ℕ × Call)) (m : CacheManager b)
      → m.settings.cache_enabled ≡ true
      → Gain m.stats
          (perform_all b now calls m).1.stats
          (count_found (perform_all b now calls m).0)
          (count_missed (perform_all b now calls m).0)
  unfolding perform_all
  counters_exact now [] m e = (omega arith, omega arith, omega arith)
  counters_exact now ((wait, call) ∷ calls) m e =
      let step = perform b (now + wait) call m in
      let rest = perform_all b (now + wait) calls step.1 in
      let one = Gain-perform (now + wait) call m e in
      let more = counters_exact (now + wait) calls step.1 (
        ap (λ (s : CacheSettings). s.cache_enabled) (settings-perform b (now + wait) call m) ∙ e) in
      let hits = count_found-cons step.0 rest.0 in
      let misses = count_missed-cons step.0 rest.0 in
      (
        omega (arith, one.0, more.0, hits),
        omega (arith, one.1, more.1, misses),
        omega (arith, one.2, more.2, hits, misses),
      )
