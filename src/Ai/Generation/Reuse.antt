-- ===== src/Ai/Generation/Reuse.antt =====
-- agents/shared/workflow/nodes.py: what the cache gives to a later request.
use recentthink_ai_be.Common.{
  ℕ, ◌+◌, ◌<◌, ◌≡◌, refl, sym, ap, ◌∙◌, String, true, false, leb, if◌then◌else◌, Option, none, some,
  Dict, arith,
}
use recentthink_ai_be.Ai.Json.{Json, object, fields, as_dict, not_none}
use recentthink_ai_be.Ai.Children.{items-fields}
use recentthink_ai_be.Ai.Estimate.{Measures}
use recentthink_ai_be.Ai.Cache.Backing.{Backing, Laws, Entry}
use recentthink_ai_be.Ai.Cache.Manager
use recentthink_ai_be.Ai.Cache.Manager.{CacheManager, ttl_for_feature, counted}
use recentthink_ai_be.Ai.Cache.Provider
use recentthink_ai_be.Ai.Cache.Provider.{Provider, get_entry, resolved_ttl}
use recentthink_ai_be.Ai.Generation.Types.{Response, Checks}
use recentthink_ai_be.Ai.Generation.Node.{
  Invocation, filled, to_store, from_cache, try_openrouter_cache, store_answer, or_generate,
  openrouter_node, cached_dict,
}

some_injective : {x y : Entry} → some x ≡ some y → x ≡ y
some_injective h = cc

module _ (b : Backing) where
  get_entry_held :
      (now : ℕ) (key : String) (p : Provider b) (item : Entry) (v : Json)
      → now < item.expires_at
      → item.value ≡ v
      → not_none (some v) ≡ some v
      → get_entry b now key p (some item) ≡ (some v, p)
  get_entry_held now key p item v fresh same there =
      let live : leb item.expires_at now ≡ false = ground arith in rw (live, same, there) refl

module _ (b : Backing) (laws : Laws b) (measures : Measures) where
  try_with_key :
      (now elapsed : ℕ) (key : String) (inv : Invocation) (m : CacheManager b)
      → inv.cache_key ≡ some key
      → try_openrouter_cache b now elapsed inv m ≡ cached_dict b (Manager.get b now elapsed key m)
  unfolding try_openrouter_cache
  try_with_key now elapsed key inv m k =
      ap
        (λ o. elim o [
          | none ↦ (none, m)
          | some key ↦ cached_dict b (Manager.get b now elapsed key m)
        ])
        k

  store_with_key :
      (now : ℕ) (key : String) (inv : Invocation) (payload : Dict Json) (m : CacheManager b)
      → inv.cache_key ≡ some key
      → store_answer b now inv payload m
        ≡ Manager.set b now key
            (object (fields (to_store inv payload)))
            (some (ttl_for_feature m.settings inv.feature))
            m
  store_with_key now key inv payload m k =
      ap
        (λ o. elim o [
          | none ↦ m
          | some key ↦
              Manager.set b now key (object (fields (to_store inv payload)))
                (some (ttl_for_feature m.settings inv.feature)) m
        ])
        k

  -- the item that a store leaves under the key has what is stored for its value
  pub value-stored :
      (now : ℕ) (key : String) (inv : Invocation) (payload : Dict Json) (m : CacheManager b)
      (item : Entry)
      → inv.cache_key ≡ some key
      → m.settings.cache_enabled ≡ true
      → b.find now key (store_answer b now inv payload m).provider.store ≡ some item
      → item.value ≡ object (fields (to_store inv payload))
  unfolding Manager.set Provider.set
  value-stored now key inv payload m item k on left =
      let value = object (fields (to_store inv payload)) in
      let ttl = some (ttl_for_feature m.settings inv.feature) in
      let entry : Entry = record {
        value = value;
        expires_at = now + resolved_ttl b m.provider ttl;
      } in
      let set_on : Manager.set b now key value ttl m
          ≡ record m { provider = Provider.set b now key value ttl m.provider } =
        rw on refl in
      let found =
        ap (λ (m' : CacheManager b). b.find now key m'.provider.store)
          (store_with_key now key inv payload m k ∙ set_on)
        ∙ laws.find-put now key entry m.provider.store in
      let same : some item ≡ some entry = sym left ∙ found in
      ap (λ (e : Entry). e.value) (some_injective same)

  -- a look-up finds an item that is held and has not expired
  get-held :
      (now elapsed : ℕ) (key : String) (m : CacheManager b) (item : Entry) (v : Json)
      → m.settings.cache_enabled ≡ true
      → b.find now key m.provider.store ≡ some item
      → now < item.expires_at
      → item.value ≡ v
      → not_none (some v) ≡ some v
      → (cached_dict b (Manager.get b now elapsed key m)).0 ≡ filled (as_dict v)
  unfolding Manager.get Provider.get
  get-held now elapsed key m item v on held fresh same there =
      let entry : get_entry b now key m.provider (some item) ≡ (some v, m.provider) =
        get_entry_held b now key m.provider item v fresh same there in
      ap
        (λ t.
          (cached_dict b (
            if t
            then counted b elapsed
                (get_entry b now key m.provider (b.find now key m.provider.store)) m
            else (none, m))).0)
        on
      ∙ ap (λ o. (cached_dict b (counted b elapsed (get_entry b now key m.provider o) m)).0) held
      ∙ ap (λ r. (cached_dict b (counted b elapsed r m)).0) entry

  module _ (checks : Checks) (complete : ℕ → ℕ → Option Response) (max_retries : ℕ) where
    from_hit :
        (now elapsed later : ℕ) (inv : Invocation) (cached : Dict Json) (m : CacheManager b)
        → (try_openrouter_cache b now elapsed inv m).0 ≡ some cached
        → (openrouter_node b measures checks complete max_retries now elapsed later inv m).0
          ≡ from_cache measures inv cached
    unfolding openrouter_node
    from_hit now elapsed later inv cached m e =
        by_result (try_openrouter_cache b now elapsed inv m) e
      where
        by_result :
            (r : Option (Dict Json) × CacheManager b)
            → r.0 ≡ some cached
            → (or_generate b measures checks complete max_retries later inv r).0
              ≡ from_cache measures inv cached
        by_result (none, m') q = cc
        by_result (some d, m') q = ap (from_cache measures inv) (ground arith)

    -- A request that finds the item of an answer has the stored payload for its answer, whatever the
    -- model would say, and calls no model.
    pub later_hit :
        (now elapsed later : ℕ) (key : String) (inv later_inv : Invocation)
        (payload stored : Dict Json) (m : CacheManager b) (item : Entry)
        → later_inv.cache_key ≡ some key
        → m.settings.cache_enabled ≡ true
        → b.find now key m.provider.store ≡ some item
        → now < item.expires_at
        → item.value ≡ object (fields (to_store inv payload))
        → filled (some (to_store inv payload)) ≡ some stored
        → (openrouter_node b measures checks complete max_retries now elapsed later later_inv m).0
          ≡ from_cache measures later_inv stored
    later_hit now elapsed later key inv later_inv payload stored m item k on held fresh same e =
        from_hit now elapsed later later_inv stored m (
          ap (λ (r : Option (Dict Json) × CacheManager b). r.0)
            (try_with_key now elapsed key later_inv m k)
          ∙ get-held now elapsed key m item (object (fields (to_store inv payload))) on held fresh
              same refl
          ∙ ap (λ d. filled (some d)) (items-fields (to_store inv payload))
          ∙ e)
