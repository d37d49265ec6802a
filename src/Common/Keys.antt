-- ===== src/Common/Keys.antt =====
-- Tables whose rows have distinct keys.
use Prim.Native.Nat.{ℕ, ◌+◌}
use mathlib.Core.Path.{◌≡◌, refl, subst}
use mathlib.Core.Bool.{Bool, true, false}
use mathlib.Core.Option.{none, some}
use mathlib.Core.List.{List, [], ◌∷◌, ◌++◌}
use native.Mathlib.Omega.{arith}
use recentthink_ai_be.Common.Tests.{if◌then◌else◌, ◌==◌, ==_iff}
use recentthink_ai_be.Common.Lists.{All, select, find, count, update}

module _ {ℓ} {A : Type ℓ} where
  -- no later row is the same as an earlier one, by some test
  abbrev pub Apart : (A → A → Bool) → List A → Type ℓ
  Apart same [] = Unit
  Apart same (x ∷ xs) = (find (same x) xs ≡ none) × Apart same xs

  -- no two rows have the same key
  abbrev pub Distinct : (A → ℕ) → List A → Type ℓ
  Distinct key = Apart (λ x y. key y == key x)

  pub update-none : (p : A → Bool) (f : A → A) (xs : List A) → find p xs ≡ none → update p f xs ≡ xs
  update-none p f [] h = refl
  update-none p f (x ∷ xs) h = ground (arith, update-none p f xs)

module _ {ℓ} {A : Type ℓ} (key : A → ℕ) where
  same_key_gone :
      (x : A) (xs : List A) (i : ℕ)
      → find (λ y. key y == key x) xs ≡ none
      → (key x == i) ≡ true
      → find (λ y. key y == i) xs ≡ none
  same_key_gone x xs i h same =
      subst (λ k. find (λ y. key y == k) xs ≡ none) ((==_iff (key x) i).0 same) h

  -- the row that some condition finds is the row with its key
  pub find_by_key :
      (q : A → Bool) (xs : List A) (a : A)
      → Distinct key xs
      → find q xs ≡ some a
      → find (λ x. key x == key a) xs ≡ some a
  find_by_key q [] a d h = cc
  find_by_key q (x ∷ xs) a d h =
      ground (arith, same_key_gone x xs (key a) d.0, find_by_key q xs a d.1)

  -- an update of the one row with a key lowers the count by that row
  pub count-update_one :
      (q : A → Bool) (f : A → A) (i : ℕ) (a : A) (xs : List A)
      → Distinct key xs
      → find (λ x. key x == i) xs ≡ some a
      → q a ≡ true
      → q (f a) ≡ false
      → count q (update (λ x. key x == i) f xs) + 1 ≡ count q xs
  count-update_one q f i a [] d h y n = cc
  count-update_one q f i a (x ∷ xs) d h y n = ground (
    arith,
    same_key_gone x xs i d.0,
    update-none (λ y. key y == i) f xs,
    count-update_one q f i a xs d.1,
  )

module _ {ℓ} {A : Type ℓ} where
  pub find_one :
      (p : A → Bool) (xs : List A) (row : A)
      → find p xs ≡ none
      → p row ≡ false
      → find p (xs ++ row ∷ []) ≡ none
  find_one p [] row h n = ground arith
  find_one p (x ∷ xs) row h n = ground (arith, find_one p xs row)

  pub find-select-none :
      (q p : A → Bool) (xs : List A) → find q xs ≡ none → find q (select p xs) ≡ none
  find-select-none q p [] h = refl
  find-select-none q p (x ∷ xs) h = ground (arith, find-select-none q p xs)

  -- a row is added that no row is the same as
  pub Apart-append :
      (same : A → A → Bool) (xs : List A) (row : A)
      → Apart same xs
      → All (λ x. same x row ≡ false) xs
      → Apart same (xs ++ row ∷ [])
  Apart-append same [] row a n = (refl, tt)
  Apart-append same (x ∷ xs) row a n =
      (find_one (same x) xs row a.0 n.0, Apart-append same xs row a.1 n.1)

  pub Apart-select :
      (same : A → A → Bool) (p : A → Bool) (xs : List A) → Apart same xs → Apart same (select p xs)
  Apart-select same p [] a = tt
  Apart-select same p (x ∷ xs) a =
      ground (arith, Apart-select same p xs a.1, find-select-none (same x) p xs a.0)

  -- rows are changed in no column that the test reads
  module _ (same : A → A → Bool) (f : A → A) (left : (x y : A) → same (f x) y ≡ same x y)
      (right : (x y : A) → same x (f y) ≡ same x y) where
    same-changed :
        (p : A → Bool) (x : A) (xs : List A)
        → find (same x) xs ≡ none
        → find (same (if p x then f x else x)) (update p f xs) ≡ none
    same-changed p x [] h = refl
    same-changed p x (y ∷ ys) h =
        ground (arith, left x y, left x (f y), right x y, same-changed p x ys)

    pub Apart-update : (p : A → Bool) (xs : List A) → Apart same xs → Apart same (update p f xs)
    Apart-update p [] a = tt
    Apart-update p (x ∷ xs) a = (same-changed p x xs a.0, Apart-update p xs a.1)

  pub All-update {κ} :
      (P : A → Type κ) (p : A → Bool) (f : A → A)
      → ((x : A) → P x → P (f x))
      → (xs : List A) → All P xs
      → All P (update p f xs)
  All-update P p f keep [] h = tt
  All-update P p f keep (x ∷ xs) h = (changed (p x), All-update P p f keep xs h.1)
    where
      changed : (b : Bool) → P (if b then f x else x)
      changed true = keep x h.0
      changed false = h.0

  pub All-select {κ} :
      (P : A → Type κ) (p : A → Bool) (xs : List A) → All P xs → All P (select p xs)
  All-select P p [] h = tt
  All-select P p (x ∷ xs) h = kept (p x) (All-select P p xs h.1)
    where
      kept : (b : Bool) → All P (select p xs) → All P (if b then x ∷ select p xs else select p xs)
      kept true rest = (h.0, rest)
      kept false rest = rest

  pub All-map {κ μ} :
      (P : A → Type κ) (Q : A → Type μ)
      → ((x : A) → P x → Q x)
      → (xs : List A) → All P xs
      → All Q xs
  All-map P Q f [] h = tt
  All-map P Q f (x ∷ xs) h = (f x h.0, All-map P Q f xs h.1)

  -- what no row satisfies each row fails
  pub All-find-none : (p : A → Bool) (xs : List A) → find p xs ≡ none → All (λ x. p x ≡ false) xs
  All-find-none p [] h = tt
  All-find-none p (x ∷ xs) h = ground (arith, All-find-none p xs)
