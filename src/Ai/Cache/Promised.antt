-- ===== src/Ai/Cache/Promised.antt =====
-- cache/cache_manager.py: over all calls, the cache does what it promises.
use recentthink_ai_be.Common.{
  ℕ, ◌+◌, ◌≡◌, refl, sym, ap, subst, ◌∙◌, inl, inr, String, true, false, Option, none, some,
  Bool-cases, List, [], ◌∷◌, arith,
}
use recentthink_ai_be.Ai.Json.{Json}
use recentthink_ai_be.Ai.Estimate.{at_least_one}
use recentthink_ai_be.Ai.Cache.Backing.{Backing, Laws}
use recentthink_ai_be.Ai.Cache.Provider.{Provider, provider}
use recentthink_ai_be.Ai.Cache.Provider
use recentthink_ai_be.Ai.Cache.Manager
use recentthink_ai_be.Ai.Cache.Manager.{CacheManager, CacheSettings, counted, kept}
use recentthink_ai_be.Ai.Cache.Calls.{
  Call, Answer, perform, perform_all, perform-get, perform-set, perform-delete, perform_exists,
  perform_clear, settings-perform, as_found,
}
use recentthink_ai_be.Ai.Cache.Promise.{Shelf, shelve, Found, Right, AllRight}
use recentthink_ai_be.Ai.Cache.Refinement.{
  Stands, Stands-get, Stands-set, Stands-delete, Stands-clear, Found-get, Told-Found,
}

module _ (b : Backing) (laws : Laws b) (default_ttl : ℕ) where
  -- a call answers what it may, and the cache stands as the shelf does after it
  abbrev Ok : ℕ → Shelf → Call → Answer × CacheManager b → Type 0
  Ok now shelf call (a, m) =
      Right now shelf call a
      × Stands b laws now default_ttl (shelve default_ttl now call shelf) m.provider

  Ok-counted :
      (now elapsed : ℕ) (shelf : Shelf) (key : String) (r : Option Json × Provider b)
      (m : CacheManager b)
      → Found now shelf key r.0
      → Stands b laws now default_ttl shelf r.1
      → Ok now shelf (Call.get elapsed key) (as_found b (counted b elapsed r m))
  unfolding shelve
  Ok-counted now elapsed shelf key (none, p) m f s = (f, s)
  Ok-counted now elapsed shelf key (some v, p) m f s = (f, s)

  Ok-perform :
      (now : ℕ) (shelf : Shelf) (call : Call) (m : CacheManager b)
      → m.settings.cache_enabled ≡ true
      → Stands b laws now default_ttl shelf m.provider
      → Ok now shelf call (perform b now call m)
  unfolding shelve Provider.exists
  Ok-perform now shelf (Call.get elapsed key) m e s = rw (perform-get b now elapsed key m e) (
      Ok-counted now elapsed shelf key (Provider.get b now key m.provider) m
        (Found-get b laws now shelf default_ttl key m.provider s)
        (Stands-get b laws now shelf default_ttl key m.provider s))
  Ok-perform now shelf (Call.set key value ttl) m e s =
      rw (perform-set b now key value ttl m e)
        (tt, Stands-set b laws now shelf default_ttl key value ttl m.provider s)
  Ok-perform now shelf (Call.delete key) m e s =
      rw (perform-delete b now key m e)
        (tt, Stands-delete b laws now shelf default_ttl key m.provider s)
  Ok-perform now shelf (Call.exists key) m e s = rw (perform_exists b now key m e) (
    Told-Found b laws now shelf key (Provider.get b now key m.provider).0
        (Found-get b laws now shelf default_ttl key m.provider s),
    Stands-get b laws now shelf default_ttl key m.provider s,
  )
  Ok-perform now shelf Call.clear m e s =
      rw (perform_clear b now m) (tt, Stands-clear b laws now shelf default_ttl m.provider s)

  Keeps-wait :
      (now wait : ℕ) (shelf : Shelf) (p : Provider b)
      → Stands b laws now default_ttl shelf p
      → Stands b laws (now + wait) default_ttl shelf p
  Keeps-wait now wait shelf p s = (s.0, λ at key f later h. s.1 at key f (omega arith) h)

  AllRight-enabled :
      (now : ℕ) (shelf : Shelf) (calls : List (ℕ × Call)) (m : CacheManager b)
      → m.settings.cache_enabled ≡ true
      → Stands b laws now default_ttl shelf m.provider
      → AllRight default_ttl now shelf calls (perform_all b now calls m).0
  unfolding perform_all
  AllRight-enabled now shelf [] m e s = tt
  AllRight-enabled now shelf ((wait, call) ∷ calls) m e s =
      let ok = Ok-perform (now + wait) shelf call m e (Keeps-wait now wait shelf m.provider s) in
      (
        ok.0,
        AllRight-enabled (now + wait) (shelve default_ttl (now + wait) call shelf) calls
            (perform b (now + wait) call m).1
            (ap (λ (s : CacheSettings). s.cache_enabled) (settings-perform b (now + wait) call m)
              ∙ e)
            ok.1,
      )

  Right-disabled :
      (now : ℕ) (shelf : Shelf) (call : Call) (m : CacheManager b)
      → m.settings.cache_enabled ≡ false
      → Right now shelf call (perform b now call m).0
  unfolding perform Manager.get Manager.exists
  Right-disabled now shelf (Call.get elapsed key) m e = rw e tt
  Right-disabled now shelf (Call.set key value ttl) m e = tt
  Right-disabled now shelf (Call.delete key) m e = tt
  Right-disabled now shelf (Call.exists key) m e = rw e tt
  Right-disabled now shelf Call.clear m e = tt

  AllRight-disabled :
      (now : ℕ) (shelf : Shelf) (calls : List (ℕ × Call)) (m : CacheManager b)
      → m.settings.cache_enabled ≡ false
      → AllRight default_ttl now shelf calls (perform_all b now calls m).0
  unfolding perform_all
  AllRight-disabled now shelf [] m e = tt
  AllRight-disabled now shelf ((wait, call) ∷ calls) m e = (
    Right-disabled (now + wait) shelf call m e,
    AllRight-disabled (now + wait) (shelve default_ttl (now + wait) call shelf) calls
        (perform b (now + wait) call m).1
        (ap (λ (s : CacheSettings). s.cache_enabled) (settings-perform b (now + wait) call m) ∙ e),
  )

module _ (b : Backing) (laws : Laws b) where
  -- A cache that starts empty keeps its promise over all calls, at whatever times they come: a look-up
  -- finds nothing but the value that was last set under its key, which was neither deleted nor cleared
  -- since and whose lifetime has not passed; and `exists` says yes for nothing else.
  pub cache_promise :
      (now max_entries default_ttl : ℕ) (calls : List (ℕ × Call)) (m : CacheManager b)
      → m.provider ≡ provider b max_entries default_ttl
      → AllRight (at_least_one default_ttl) now (λ key. none) calls (perform_all b now calls m).0
  unfolding provider
  cache_promise now max_entries default_ttl calls m e =
      elim (Bool-cases (m.settings.cache_enabled)) [
        | inr off ↦
            AllRight-disabled b laws (at_least_one default_ttl) now (λ key. none) calls m off
        | inl on ↦
            AllRight-enabled b laws (at_least_one default_ttl) now (λ key. none) calls m on
              (subst (Stands b laws now (at_least_one default_ttl) (λ key. none)) (sym e) (
                refl,
                λ at key f later h.
                    let gone : none ≡ some f = sym (laws.find-empty at key) ∙ h in cc,
              ))
      ]
