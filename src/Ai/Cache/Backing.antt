-- ===== src/Ai/Cache/Backing.antt =====
-- What cache/memory_cache.py uses of `cachetools.TTLCache`. A call is given the time at which it is
-- made. The cache may drop an item at any time, by its ceiling or to make room, but it makes none up.
use recentthink_ai_be.Common.{ℕ, ◌≡◌, ◌≢◌, ◌≤◌, ◌⊎◌, String, Option, none, some}
use recentthink_ai_be.Ai.Json.{Json}

-- the value and the second at which it expires
pub record Entry : Type 0 where
  pub value : Json
  pub expires_at : ℕ

pub record Backing : Type 1 where
  pub Store : Type 0
  pub empty : Store
  -- `store.get(key)`
  pub find : ℕ → String → Store → Option Entry
  -- `store[key] = entry`
  pub put : ℕ → String → Entry → Store → Store
  -- `store.pop(key, None)` and `del store[key]`
  pub remove : ℕ → String → Store → Store
  -- `store.clear()`
  pub clear : Store → Store
  -- `len(store)`
  pub entries : ℕ → Store → ℕ

-- What is found was put: a later look finds the same item, or none.
pub record Laws (b : Backing) : Type 1 where
  pub find-empty : (now : ℕ) (key : String) → b.find now key b.empty ≡ none
  pub find-put :
      (now : ℕ) (key : String) (e : Entry) (s : b.Store)
      → b.find now key (b.put now key e s) ≡ some e
  pub kept-later :
      (now at : ℕ) (key : String) (f : Entry) (s : b.Store)
      → now ≤ at
      → b.find at key s ≡ some f
      → b.find now key s ≡ some f
  pub kept-put :
      (now at : ℕ) (key other : String) (e f : Entry) (s : b.Store)
      → now ≤ at
      → b.find at other (b.put now key e s) ≡ some f
      → ((key ≡ other) × (e ≡ f)) ⊎ ((key ≢ other) × (b.find at other s ≡ some f))
  pub kept-remove :
      (now at : ℕ) (key other : String) (f : Entry) (s : b.Store)
      → now ≤ at
      → b.find at other (b.remove now key s) ≡ some f
      → (key ≢ other) × (b.find at other s ≡ some f)
  pub find-clear : (now : ℕ) (key : String) (s : b.Store) → b.find now key (b.clear s) ≡ none
