-- ===== src/Ai/Cache/Promise.antt =====
-- cache/cache_provider.py: what a cache promises. A shelf holds the last item of each key that was set
-- and not deleted since; a cache finds nothing but what is on the shelf and has not expired.
use recentthink_ai_be.Common.{
  ℕ, ◌+◌, ◌≤◌, ◌<◌, ◌≡◌, sym, ap, subst, ◌∙◌, inl, inr, String, Bool, true, false, Option, none,
  some, Bool-cases, List, ◌∷◌, arith, str_eq, eq_iff, if◌then◌else◌,
}
use recentthink_ai_be.Ai.Json.{Json, not_none}
use recentthink_ai_be.Ai.Estimate.{at_least_one}
use recentthink_ai_be.Ai.Cache.Backing.{Entry, Backing, Laws}
use recentthink_ai_be.Ai.Cache.Calls.{Call, Answer, found, told}

abbrev pub Shelf : Type 0
Shelf = String → Option Entry

abbrev pub lifetime : ℕ → Option ℕ → ℕ
lifetime default_ttl none = default_ttl
lifetime default_ttl (some ttl) = at_least_one ttl

-- the shelf after a call
unfoldable pub shelve : ℕ → ℕ → Call → Shelf → Shelf
shelve default_ttl now (Call.get elapsed key) shelf = shelf
shelve default_ttl now (Call.set key value ttl) shelf = λ other.
    if str_eq key other
    then some (record { value = value; expires_at = now + lifetime default_ttl ttl })
    else shelf other
shelve default_ttl now (Call.delete key) shelf =
    λ other. if str_eq key other then none else shelf other
shelve default_ttl now (Call.exists key) shelf = shelf
shelve default_ttl now Call.clear shelf = λ other. none

-- the value is on the shelf and has not expired
abbrev pub Fresh : ℕ → Shelf → String → Json → Type 0
Fresh now shelf key v =
    (e : Entry) × (shelf key ≡ some e) × (now < e.expires_at) × (not_none (some e.value) ≡ some v)

abbrev pub Found : ℕ → Shelf → String → Option Json → Type 0
Found now shelf key none = Unit
Found now shelf key (some v) = Fresh now shelf key v

abbrev pub Told : ℕ → Shelf → String → Bool → Type 0
Told now shelf key true = (v : Json) × Fresh now shelf key v
Told now shelf key false = Unit

-- what a call may answer
abbrev pub Right : ℕ → Shelf → Call → Answer → Type 0
Right now shelf (Call.get elapsed key) (found o) = Found now shelf key o
Right now shelf (Call.exists key) (told t) = Told now shelf key t
Right now shelf _ _ = Unit

abbrev pub AllRight : ℕ → ℕ → Shelf → List (ℕ × Call) → List Answer → Type 0
AllRight default_ttl now shelf ((wait, call) ∷ calls) (a ∷ as_) =
    Right (now + wait) shelf call a
    × AllRight default_ttl (now + wait) (shelve default_ttl (now + wait) call shelf) calls as_
AllRight default_ttl now shelf _ _ = Unit

module _ (b : Backing) (laws : Laws b) where
  -- from now on, the store holds nothing but what is on the shelf
  abbrev pub Keeps : ℕ → b.Store → Shelf → Type 0
  Keeps now s shelf =
      (at : ℕ) (key : String) (f : Entry) → now ≤ at → b.find at key s ≡ some f → shelf key ≡ some f

  pub Keeps-put :
      (now : ℕ) (key : String) (e : Entry) (s : b.Store) (shelf : Shelf)
      → Keeps now s shelf
      → Keeps now (b.put now key e s) (λ other. if str_eq key other then some e else shelf other)
  Keeps-put now key e s shelf k at other f later h =
      elim (laws.kept-put now at key other e f s later h) [
        | inl (same, value) ↦
            let equal : str_eq key other ≡ true = (eq_iff key other).1 same in
            rw equal (ap some value)
        | inr (differ, old) ↦
            let kept = k at other f later old in ground (arith, eq_iff key other, differ, kept)
      ]

  pub Keeps-remove :
      (now : ℕ) (key : String) (s : b.Store) (shelf : Shelf)
      → Keeps now s shelf
      → Keeps now (b.remove now key s) (λ other. if str_eq key other then none else shelf other)
  Keeps-remove now key s shelf k at other f later h =
      let r = laws.kept-remove now at key other f s later h in
      let kept = k at other f later r.1 in ground (arith, eq_iff key other, r.0, kept)

  -- a removal that the shelf does not follow
  pub Keeps-dropped :
      (now : ℕ) (key : String) (s : b.Store) (shelf : Shelf)
      → Keeps now s shelf
      → Keeps now (b.remove now key s) shelf
  Keeps-dropped now key s shelf k at other f later h =
      k at other f later (laws.kept-remove now at key other f s later h).1

  -- a key that is not found now is not found later
  pub Keeps-absent :
      (now : ℕ) (key : String) (s : b.Store) (shelf : Shelf)
      → b.find now key s ≡ none
      → Keeps now s shelf
      → Keeps now s (λ other. if str_eq key other then none else shelf other)
  Keeps-absent now key s shelf e k at other f later h = elim (Bool-cases (str_eq key other)) [
    | inl same ↦
        let gone : none ≡ some f =
          sym e
          ∙ subst (λ o. b.find now o s ≡ some f) (sym ((eq_iff key other).0 same))
              (laws.kept-later now at other f s later h) in
        cc
    | inr differ ↦ rw differ (k at other f later h)
  ]
