-- ===== src/Common/Lists.antt =====
-- Tables as lists of rows: the first match, the rows that match, how many, and an update of them.
use Prim.Native.Nat.{ℕ, suc, ◌+◌}
use mathlib.Core.Path.{◌≡◌, refl}
use mathlib.Core.Logic.{◌≢◌}
use mathlib.Core.Bool.{Bool, true, false, not}
use mathlib.Core.Option.{Option, none, some}
use mathlib.Core.List.{List, [], ◌∷◌, ◌++◌}
use native.Mathlib.Omega.{arith}
use recentthink_ai_be.Common.Tests.{if◌then◌else◌}

module _ {ℓ} {A : Type ℓ} where
  -- the first row that matches
  abbrev pub find : (A → Bool) → List A → Option A
  find p [] = none
  find p (x ∷ xs) = if p x then some x else find p xs

  -- how many rows match
  abbrev pub count : (A → Bool) → List A → ℕ
  count p [] = 0
  count p (x ∷ xs) = let rest = count p xs in if p x then suc rest else rest

  -- the rows that match
  abbrev pub select : (A → Bool) → List A → List A
  select p [] = []
  select p (x ∷ xs) = let rest = select p xs in if p x then x ∷ rest else rest

  -- the rows, with each one that matches changed
  abbrev pub update : (A → Bool) → (A → A) → List A → List A
  update p f [] = []
  update p f (x ∷ xs) = (if p x then f x else x) ∷ update p f xs

  -- every row has the property
  abbrev pub All {κ} : (A → Type κ) → List A → Type κ
  All P [] = Unit
  All P (x ∷ xs) = P x × All P xs

  pub count-append : (p : A → Bool) (xs ys : List A) → count p (xs ++ ys) ≡ count p xs + count p ys
  count-append p [] ys = omega arith
  count-append p (x ∷ xs) ys = ground (arith, count-append p xs ys)

  pub find-append_none :
      (p : A → Bool) (xs ys : List A) → find p xs ≡ none → find p (xs ++ ys) ≡ find p ys
  find-append_none p [] ys h = refl
  find-append_none p (x ∷ xs) ys h = ground (arith, find-append_none p xs ys)

  pub find-append_some :
      (p : A → Bool) (xs ys : List A) (a : A) → find p xs ≡ some a → find p (xs ++ ys) ≡ some a
  find-append_some p [] ys a h = cc
  find-append_some p (x ∷ xs) ys a h = ground (arith, find-append_some p xs ys a)

  pub find-matches : (p : A → Bool) (xs : List A) (a : A) → find p xs ≡ some a → p a ≡ true
  find-matches p [] a h = cc
  find-matches p (x ∷ xs) a h = ground (arith, find-matches p xs a)

  pub All-append {κ} : (P : A → Type κ) (xs ys : List A) → All P xs → All P ys → All P (xs ++ ys)
  All-append P [] ys hx hy = hy
  All-append P (x ∷ xs) ys hx hy = (hx.0, All-append P xs ys hx.1 hy)

  pub All-find {κ} :
      (P : A → Type κ) (p : A → Bool) (xs : List A) (a : A) → All P xs → find p xs ≡ some a → P a
  All-find P p [] a all h = cc
  All-find P p (x ∷ xs) a all h = ground (arith, All-find P p xs a all.1)

  -- a row that one condition finds satisfies it, so that the other finds a row too
  pub find-found :
      (p q : A → Bool) (xs : List A) (a : A) → find q xs ≡ some a → p a ≡ true → find p xs ≢ none
  find-found p q [] a h k = cc
  find-found p q (x ∷ xs) a h k = ground (arith, find-found p q xs a)

  pub find-update :
      (p q : A → Bool) (f : A → A) (keep : (x : A) → q (f x) ≡ q x) (xs : List A)
      → find q (update p f xs)
        ≡ elim (find q xs) [ none ↦ none | some a ↦ some (if p a then f a else a) ]
  find-update p q f keep [] = refl
  find-update p q f keep (x ∷ xs) = ground (arith, keep x, find-update p q f keep xs)

  -- after an update that makes every matching row stop matching, none matches
  pub count-update_all :
      (q : A → Bool) (f : A → A) (stop : (x : A) → q (f x) ≡ false) (xs : List A)
      → count q (update q f xs) ≡ 0
  count-update_all q f stop [] = refl
  count-update_all q f stop (x ∷ xs) = ground (arith, stop x, count-update_all q f stop xs)

  -- an update that no counted row takes part in
  pub count-update_other :
      (p q : A → Bool) (f : A → A) (same : (x : A) → p x ≡ true → q (f x) ≡ q x) (xs : List A)
      → count q (update p f xs) ≡ count q xs
  count-update_other p q f same [] = refl
  count-update_other p q f same (x ∷ xs) = ground (arith, same x, count-update_other p q f same xs)

  pub count-select-not : (q : A → Bool) (xs : List A) → count q (select (λ x. not (q x)) xs) ≡ 0
  count-select-not q [] = refl
  count-select-not q (x ∷ xs) = ground (arith, count-select-not q xs)
