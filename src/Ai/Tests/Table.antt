-- ===== src/Ai/Tests/Table.antt =====
-- A store that never drops anything.
use recentthink_ai_be.Common.{
  ℕ, suc, ◌≡◌, ◌≢◌, ◌⊎◌, refl, String, some, [], ◌∷◌, Dict, lookup, insert, lookup-insert,
  lookup-insert_if, str_eq, eq_iff, select, not, arith,
}
use recentthink_ai_be.Ai.Cache.Backing.{Entry, Backing, Laws}

abbrev erase : String → Dict Entry → Dict Entry
erase key s = select (λ (k, e). not (str_eq k key)) s

abbrev pub size_of : Dict Entry → ℕ
size_of [] = 0
size_of (x ∷ xs) = suc (size_of xs)

abbrev pub table : Backing
table = record {
  Store = Dict Entry;
  empty = [];
  find = λ now key s. lookup key s;
  put = λ now key e s. insert key e s;
  remove = λ now key s. erase key s;
  clear = λ s. [];
  entries = λ now s. size_of s;
}

lookup-erase :
    (key other : String) (f : Entry) (s : Dict Entry)
    → lookup other (erase key s) ≡ some f
    → (key ≢ other) × (lookup other s ≡ some f)
lookup-erase key other f [] h = cc
lookup-erase key other f ((k, e) ∷ s) h =
    ground (arith, eq_iff k key, eq_iff k other, lookup-erase key other f s)

kept_by_insert :
    (key other : String) (e f : Entry) (s : Dict Entry)
    → lookup other (insert key e s) ≡ some f
    → ((key ≡ other) × (e ≡ f)) ⊎ ((key ≢ other) × (lookup other s ≡ some f))
kept_by_insert key other e f s h = ground (arith, eq_iff key other, lookup-insert_if key other e s)

pub table-Laws : Laws table
table-Laws = record {
  find-empty = λ now key. refl;
  find-put = λ now key e s. lookup-insert key e s;
  kept-later = λ now at key f s later h. h;
  kept-put = λ now at key other e f s later h. kept_by_insert key other e f s h;
  kept-remove = λ now at key other f s later h. lookup-erase key other f s h;
  find-clear = λ now key s. refl;
}
