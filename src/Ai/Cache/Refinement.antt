-- ===== src/Ai/Cache/Refinement.antt =====
-- cache/cache_manager.py over cache/memory_cache.py: the cache does what it promises.
use recentthink_ai_be.Common.{
  ℕ, ◌+◌, ◌<◌, ◌≡◌, refl, sym, subst, ◌∙◌, inl, inr, String, Option, none, some, Option-cases,
  Bool-cases, arith, str_eq, leb, is_some, if◌then◌else◌,
}
use recentthink_ai_be.Ai.Json.{Json, not_none}
use recentthink_ai_be.Ai.Cache.Backing.{Entry, Backing, Laws}
use recentthink_ai_be.Ai.Cache.Provider.{Provider, get_entry, resolved_ttl}
use recentthink_ai_be.Ai.Cache.Provider
use recentthink_ai_be.Ai.Cache.Calls.{Call}
use recentthink_ai_be.Ai.Cache.Promise.{
  Shelf, lifetime, shelve, Found, Told, Keeps, Keeps-put, Keeps-remove, Keeps-dropped, Keeps-absent,
}

module _ (b : Backing) (laws : Laws b) (now : ℕ) where
  -- the provider keeps its default, and holds nothing but what is on the shelf
  abbrev pub Stands : ℕ → Shelf → Provider b → Type 0
  Stands default_ttl shelf p = (p.default_ttl ≡ default_ttl) × Keeps b laws now p.store shelf

module _ (b : Backing) (laws : Laws b) (now : ℕ) (shelf : Shelf) where
  Stands-get_entry :
      (default_ttl : ℕ) (key : String) (p : Provider b) (o : Option Entry)
      → Stands b laws now default_ttl shelf p
      → Stands b laws now default_ttl shelf (get_entry b now key p o).1
  Stands-get_entry default_ttl key p none s = s
  Stands-get_entry default_ttl key p (some e) s = elim (Bool-cases (leb e.expires_at now)) [
    | inl expired ↦ rw expired (s.0, Keeps-dropped b laws now key p.store shelf s.1)
    | inr fresh ↦ rw fresh s
  ]

  Found-get_entry :
      (key : String) (p : Provider b) (o : Option Entry)
      → ((e : Entry) → o ≡ some e → shelf key ≡ some e)
      → Found now shelf key (get_entry b now key p o).0
  Found-get_entry key p none h = tt
  Found-get_entry key p (some e) h = elim (Bool-cases (leb e.expires_at now)) [
    | inl expired ↦ rw expired tt
    | inr fresh ↦ rw fresh (found_value (ground arith) (not_none (some e.value)) refl)
  ]
    where
      found_value :
          now < e.expires_at
          → (o : Option Json) → not_none (some e.value) ≡ o
          → Found now shelf key o
      found_value lt none q = tt
      found_value lt (some v) q = (e, h e refl, lt, q)

  pub Stands-get :
      (default_ttl : ℕ) (key : String) (p : Provider b)
      → Stands b laws now default_ttl shelf p
      → Stands b laws now default_ttl shelf (Provider.get b now key p).1
  unfolding Provider.get
  Stands-get default_ttl key p s = Stands-get_entry default_ttl key p (b.find now key p.store) s

  pub Found-get :
      (default_ttl : ℕ) (key : String) (p : Provider b)
      → Stands b laws now default_ttl shelf p
      → Found now shelf key (Provider.get b now key p).0
  unfolding Provider.get
  Found-get default_ttl key p s =
      Found-get_entry key p (b.find now key p.store) (λ e. s.1 now key e (omega arith))

  pub Told-Found :
      (key : String) (o : Option Json) → Found now shelf key o → Told now shelf key (is_some o)
  Told-Found key none f = tt
  Told-Found key (some v) f = (v, f)

  ttl_of :
      (default_ttl : ℕ) (p : Provider b) (ttl : Option ℕ)
      → p.default_ttl ≡ default_ttl
      → resolved_ttl b p ttl ≡ lifetime default_ttl ttl
  ttl_of default_ttl p none e = e
  ttl_of default_ttl p (some t) e = refl

  pub Stands-set :
      (default_ttl : ℕ) (key : String) (value : Json) (ttl : Option ℕ) (p : Provider b)
      → Stands b laws now default_ttl shelf p
      → Stands b laws now default_ttl
          (shelve default_ttl now (Call.set key value ttl) shelf)
          (Provider.set b now key value ttl p)
  unfolding Provider.set shelve
  Stands-set default_ttl key value ttl p s = (
    s.0,
    subst
        (λ n.
          Keeps b laws now
            (b.put now key (record { value = value; expires_at = now + resolved_ttl b p ttl })
              p.store)
            (λ other.
              if str_eq key other
              then some (record { value = value; expires_at = now + n })
              else shelf other))
        (ttl_of default_ttl p ttl s.0)
        (Keeps-put b laws now key
          (record { value = value; expires_at = now + resolved_ttl b p ttl }) p.store shelf s.1),
  )

  pub Stands-delete :
      (default_ttl : ℕ) (key : String) (p : Provider b)
      → Stands b laws now default_ttl shelf p
      → Stands b laws now default_ttl
          (shelve default_ttl now (Call.delete key) shelf)
          (Provider.delete b now key p).1
  unfolding Provider.delete shelve
  Stands-delete default_ttl key p s = elim (Option-cases (b.find now key p.store)) [
    | inl absent ↦ rw absent (s.0, Keeps-absent b laws now key p.store shelf absent s.1)
    | inr (e, there) ↦ rw there (s.0, Keeps-remove b laws now key p.store shelf s.1)
  ]

  pub Stands-clear :
      (default_ttl : ℕ) (p : Provider b)
      → Stands b laws now default_ttl shelf p
      → Stands b laws now default_ttl
          (shelve default_ttl now Call.clear shelf)
          (Provider.clear b now p).1
  unfolding Provider.clear shelve
  Stands-clear default_ttl p s = (
    s.0,
    λ at key f later h. let gone : none ≡ some f = sym (laws.find-clear at key p.store) ∙ h in cc,
  )
