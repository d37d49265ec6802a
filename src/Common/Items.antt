-- ===== src/Common/Items.antt =====
-- A dict with text keys as a list of its items, in the order of insertion.
use Prim.Native.String.{String}
use Prim.Native.Nat.{ℕ, suc, ◌≤◌}
use mathlib.Core.Path.{◌≡◌, refl, sym, subst}
use mathlib.Core.Logic.{◌≢◌, inl, inr}
use mathlib.Core.Option.{Option, none, some}
use mathlib.Core.List.{List, [], ◌∷◌}
use native.Mathlib.Omega.{arith}
use text.Mathlib.Text.{◌==◌ as str_eq}
use text.Mathlib.TextEquality.{eq_iff}
use recentthink_ai_be.Common.Tests.{if◌then◌else◌, Bool-cases}

abbrev pub Dict {ℓ} : Type ℓ → Type ℓ
Dict V = List (String × V)

module _ {ℓ} {V : Type ℓ} where
  -- `d.get(key)`
  abbrev pub lookup : String → Dict V → Option V
  lookup key [] = none
  lookup key ((k, v) ∷ d) = if str_eq k key then some v else lookup key d

  -- `d[key] = value`: in its place, or at the end
  abbrev pub insert : String → V → Dict V → Dict V
  insert key value [] = (key, value) ∷ []
  insert key value ((k, v) ∷ d) =
      let rest = insert key value d in if str_eq k key then (k, value) ∷ d else (k, v) ∷ rest

  pub lookup-insert :
      (key : String) (value : V) (d : Dict V) → lookup key (insert key value d) ≡ some value
  lookup-insert key value [] = ground (arith, eq_iff key key)
  lookup-insert key value ((k, v) ∷ d) = ground (arith, lookup-insert key value d)

  pub lookup-insert_other :
      (key other : String) (value : V) (d : Dict V)
      → other ≢ key
      → lookup other (insert key value d) ≡ lookup other d
  lookup-insert_other key other value [] ne = ground (arith, eq_iff key other)
  lookup-insert_other key other value ((k, v) ∷ d) ne =
      ground (arith, eq_iff k key, eq_iff k other, lookup-insert_other key other value d ne)

  -- the two together
  pub lookup-insert_if :
      (key other : String) (value : V) (d : Dict V)
      → lookup other (insert key value d)
        ≡ (if str_eq key other then some value else lookup other d)
  lookup-insert_if key other value [] = refl
  lookup-insert_if key other value ((k, v) ∷ d) =
      ground
        (arith, eq_iff k key, eq_iff k other, eq_iff key other, lookup-insert_if key other value d)

  -- how many items of a dict have the key
  abbrev pub occurs : String → Dict V → ℕ
  occurs key [] = 0
  occurs key ((k, v) ∷ d) = let rest = occurs key d in if str_eq k key then suc rest else rest

  pub occurs-insert_other :
      (key other : String) (value : V) (d : Dict V)
      → other ≢ key
      → occurs other (insert key value d) ≡ occurs other d
  occurs-insert_other key other value [] ne = ground (arith, eq_iff key other)
  occurs-insert_other key other value ((k, v) ∷ d) ne = ground (
    arith,
    eq_iff k key,
    eq_iff k other,
    eq_iff key other,
    occurs-insert_other key other value d ne,
  )

  pub occurs-insert_same :
      (key : String) (value : V) (d : Dict V)
      → occurs key d ≤ 1
      → occurs key (insert key value d) ≤ 1
  occurs-insert_same key value [] h = ground (arith, eq_iff key key)
  occurs-insert_same key value ((k, v) ∷ d) h = ground (arith, occurs-insert_same key value d)

  -- a dict keeps one item of each key
  pub occurs-insert :
      (key other : String) (value : V) (d : Dict V)
      → occurs other d ≤ 1
      → occurs other (insert key value d) ≤ 1
  occurs-insert key other value d h = elim (Bool-cases (str_eq other key)) [
    | inl same ↦
        subst (λ k. occurs k (insert key value d) ≤ 1) (sym ((eq_iff other key).0 same))
          (occurs-insert_same key value d
            (subst (λ k. occurs k d ≤ 1) ((eq_iff other key).0 same) h))
    | inr differ ↦ ground (arith, eq_iff other key, occurs-insert_other key other value d)
  ]

  pub lookup-none : (key : String) (d : Dict V) → occurs key d ≡ 0 → lookup key d ≡ none
  lookup-none key [] h = refl
  lookup-none key ((k, v) ∷ d) h = ground (arith, lookup-none key d)
