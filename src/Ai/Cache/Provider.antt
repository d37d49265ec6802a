-- ===== src/Ai/Cache/Provider.antt =====
-- cache/memory_cache.py: the cache of this process, whose items expire one by one.
use recentthink_ai_be.Common.{
  ℕ, suc, ◌+◌, String, Bool, true, false, Option, none, some, is_some, ◌&&◌, not, leb,
  if◌then◌else◌,
}
use recentthink_ai_be.Ai.Json.{Json, not_none}
use recentthink_ai_be.Ai.Estimate.{at_least_one}
use recentthink_ai_be.Ai.Cache.Backing.{Entry, Backing}

module _ (b : Backing) where
  pub record Provider : Type 0 where
    pub default_ttl : ℕ
    pub max_entries : ℕ
    pub store : b.Store
    pub expired_count : ℕ
    pub eviction_count : ℕ

  -- `MemoryCacheProvider`
  unfoldable pub provider : ℕ → ℕ → Provider
  provider max_entries default_ttl = record {
    default_ttl = at_least_one default_ttl;
    max_entries = at_least_one max_entries;
    store = b.empty;
    expired_count = 0;
    eviction_count = 0;
  }

  -- an item that has expired is removed and counted
  abbrev pub get_entry : ℕ → String → Provider → Option Entry → Option Json × Provider
  get_entry now key p none = (none, p)
  get_entry now key p (some e) =
      if leb e.expires_at now
      then (
        none,
        record p { store = b.remove now key p.store; expired_count = suc p.expired_count },
      )
      else (not_none (some e.value), p)

  unfoldable pub get : ℕ → String → Provider → Option Json × Provider
  get now key p = get_entry now key p (b.find now key p.store)

  abbrev pub resolved_ttl : Provider → Option ℕ → ℕ
  resolved_ttl p none = p.default_ttl
  resolved_ttl p (some ttl) = at_least_one ttl

  unfoldable pub set : ℕ → String → Json → Option ℕ → Provider → Provider
  set now key value ttl p =
      let before = b.entries now p.store in
      let will_evict = leb p.max_entries before && not (is_some (b.find now key p.store)) in
      let store =
        b.put now key (record { value = value; expires_at = now + resolved_ttl p ttl }) p.store in
      record p {
        store = store;
        eviction_count =
            if will_evict && leb (b.entries now store) before
            then suc p.eviction_count
            else p.eviction_count;
      }

  unfoldable pub delete : ℕ → String → Provider → Bool × Provider
  delete now key p =
      if is_some (b.find now key p.store)
      then (true, record p { store = b.remove now key p.store })
      else (false, p)

  unfoldable pub exists : ℕ → String → Provider → Bool × Provider
  unfolding get
  exists now key p = let (value, p') = get now key p in (is_some value, p')

  unfoldable pub clear : ℕ → Provider → ℕ × Provider
  clear now p = (b.entries now p.store, record p { store = b.clear p.store })
