-- ===== src/Ai/Cache/Calls.antt =====
-- cache/cache_manager.py: calls of the cache, one after the other.
use recentthink_ai_be.Common.{ℕ, ◌+◌, ◌≡◌, refl, String, Bool, true, Option, List, [], ◌∷◌, arith}
use recentthink_ai_be.Ai.Json.{Json}
use recentthink_ai_be.Ai.Cache.Backing.{Backing}
use recentthink_ai_be.Ai.Cache.Manager
use recentthink_ai_be.Ai.Cache.Provider
use recentthink_ai_be.Ai.Cache.Manager.{CacheManager, counted, kept}

pub data Call : Type 0 where
  get : ℕ → String → Call
  set : String → Json → Option ℕ → Call
  delete : String → Call
  exists : String → Call
  clear : Call

pub data Answer : Type 0 where
  found : Option Json → Answer
  told : Bool → Answer
  removed : ℕ → Answer
  done : Answer

module _ (b : Backing) where
  abbrev pub as_found : Option Json × CacheManager b → Answer × CacheManager b
  as_found (o, m) = (found o, m)

  abbrev pub as_told : Bool × CacheManager b → Answer × CacheManager b
  as_told (t, m) = (told t, m)

  abbrev pub as_removed : ℕ × CacheManager b → Answer × CacheManager b
  as_removed (n, m) = (removed n, m)

  unfoldable pub perform : ℕ → Call → CacheManager b → Answer × CacheManager b
  perform now (Call.get elapsed key) m = as_found (Manager.get b now elapsed key m)
  perform now (Call.set key value ttl) m = (done, Manager.set b now key value ttl m)
  perform now (Call.delete key) m = as_told (Manager.delete b now key m)
  perform now (Call.exists key) m = as_told (Manager.exists b now key m)
  perform now Call.clear m = as_removed (Manager.clear b now m)

  -- each call, with the seconds that pass before it
  unfoldable pub perform_all : ℕ → List (ℕ × Call) → CacheManager b → List Answer × CacheManager b
  unfolding perform
  perform_all now [] m = ([], m)
  perform_all now ((wait, call) ∷ calls) m =
      let step = perform (now + wait) call m in
      let rest = perform_all (now + wait) calls step.1 in (step.0 ∷ rest.0, rest.1)

  -- the calls of a cache that is enabled
  pub perform-get :
      (now elapsed : ℕ) (key : String) (m : CacheManager b)
      → m.settings.cache_enabled ≡ true
      → perform now (Call.get elapsed key) m
        ≡ as_found (counted b elapsed (Provider.get b now key m.provider) m)
  unfolding perform Manager.get
  perform-get now elapsed key m e = rw e refl

  pub perform-set :
      (now : ℕ) (key : String) (value : Json) (ttl : Option ℕ) (m : CacheManager b)
      → m.settings.cache_enabled ≡ true
      → perform now (Call.set key value ttl) m
        ≡ (done, record m { provider = Provider.set b now key value ttl m.provider })
  unfolding perform Manager.set
  perform-set now key value ttl m e = rw e refl

  pub perform-delete :
      (now : ℕ) (key : String) (m : CacheManager b)
      → m.settings.cache_enabled ≡ true
      → perform now (Call.delete key) m ≡ as_told (kept b (Provider.delete b now key m.provider) m)
  unfolding perform Manager.delete
  perform-delete now key m e = rw e refl

  pub perform_exists :
      (now : ℕ) (key : String) (m : CacheManager b)
      → m.settings.cache_enabled ≡ true
      → perform now (Call.exists key) m ≡ as_told (kept b (Provider.exists b now key m.provider) m)
  unfolding perform Manager.exists
  perform_exists now key m e = rw e refl

  pub perform_clear :
      (now : ℕ) (m : CacheManager b)
      → perform now Call.clear m ≡ (
        removed (Provider.clear b now m.provider).0,
        record m { provider = (Provider.clear b now m.provider).1 },
      )
  unfolding perform Manager.clear
  perform_clear now m = refl

  pub settings-perform :
      (now : ℕ) (call : Call) (m : CacheManager b) → (perform now call m).1.settings ≡ m.settings
  unfolding perform Manager.get Manager.set Manager.delete Manager.exists Manager.clear
  settings-perform now (Call.get elapsed key) m = ground arith
  settings-perform now (Call.set key value ttl) m = ground arith
  settings-perform now (Call.delete key) m = ground arith
  settings-perform now (Call.exists key) m = ground arith
  settings-perform now Call.clear m = refl
