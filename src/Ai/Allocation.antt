-- ===== src/Ai/Allocation.antt =====
-- utils/section_tokens.py: the shares of the sections add up to the tokens of the completion.
use native.Mathlib.Nat.{mul-add, add-mul, div-mul-le_self, lt-div-mul-add, le_of_mul-le-mul_right}
use recentthink_ai_be.Common.{
  ℕ, suc, ◌+◌, ◌-◌, ◌*◌, ◌/◌, ◌≤◌, ◌<◌, ◌≡◌, refl, sym, ap, ◌∙◌, subst, ◌⊎◌, String, Bool, true,
  false, Option, none, some, List, [], ◌∷◌, arith, Dict, str_eq, eq_iff, ◌&&◌, ◌||◌, not, ◌==◌,
  ==_iff, map, select,
}
use recentthink_ai_be.Ai.Json.{Json}
use recentthink_ai_be.Ai.Estimate.{
  Measures, Share, total, share, weights_of, insert_share, by_fraction, add_one, hand_out, shares,
  floors_of, divide, estimate_section_tokens,
}

abbrev size_of {ℓ} : {A : Type ℓ} → List A → ℕ
size_of [] = 0
size_of (x ∷ xs) = suc (size_of xs)

abbrev has : String → Dict ℕ → Bool
has key [] = false
has key ((k, n) ∷ d) = str_eq k key || has key d

has-add_one : (other key : String) (d : Dict ℕ) → has other (add_one key d) ≡ has other d
has-add_one other key [] = refl
has-add_one other key ((k, n) ∷ d) = ground (arith, has-add_one other key d)

total-add_one : (key : String) (d : Dict ℕ) → has key d ≡ true → total (add_one key d) ≡ total d + 1
total-add_one key [] h = cc
total-add_one key ((k, n) ∷ d) h = ground (arith, total-add_one key d)

module _ (m : Measures) where
  -- every share is that of a key of the dict
  abbrev covers : Dict ℕ → List (Share m) → Bool
  covers d [] = true
  covers d (s ∷ ss) = has s.key d && covers d ss

  covers-add_one :
      (key : String) (d : Dict ℕ) (ss : List (Share m)) → covers (add_one key d) ss ≡ covers d ss
  covers-add_one key d [] = refl
  covers-add_one key d (s ∷ ss) = ground (arith, has-add_one s.key key d, covers-add_one key d ss)

  covers-more :
      (k : String) (n : ℕ) (d : Dict ℕ) (ss : List (Share m))
      → covers d ss ≡ true
      → covers ((k, n) ∷ d) ss ≡ true
  covers-more k n d [] h = refl
  covers-more k n d (s ∷ ss) h = ground (arith, covers-more k n d ss)

  covers-insert_share :
      (d : Dict ℕ) (s : Share m) (ss : List (Share m))
      → covers d (insert_share m s ss) ≡ (has s.key d && covers d ss)
  unfolding insert_share
  covers-insert_share d s [] = refl
  covers-insert_share d s (t ∷ ss) = ground (arith, covers-insert_share d s ss)

  covers-by_fraction :
      (d : Dict ℕ) (ss : List (Share m)) → covers d (by_fraction m ss) ≡ covers d ss
  unfolding by_fraction
  covers-by_fraction d [] = refl
  covers-by_fraction d (s ∷ ss) =
      ground (arith, covers-insert_share d s (by_fraction m ss), covers-by_fraction d ss)

  size_of-insert_share :
      (s : Share m) (ss : List (Share m)) → size_of (insert_share m s ss) ≡ suc (size_of ss)
  unfolding insert_share
  size_of-insert_share s [] = refl
  size_of-insert_share s (t ∷ ss) = ground (arith, size_of-insert_share s ss)

  size_of-by_fraction : (ss : List (Share m)) → size_of (by_fraction m ss) ≡ size_of ss
  unfolding by_fraction
  size_of-by_fraction [] = refl
  size_of-by_fraction (s ∷ ss) =
      size_of-insert_share s (by_fraction m ss) ∙ ap suc (size_of-by_fraction ss)

  abbrev keys_of : List (Share m) → List String
  keys_of = map (λ (s : Share m). s.key)

  -- the loop gives away all that is left, when there are as many keys
  total-hand_out :
      (ss : List (Share m)) (left : ℕ) (d : Dict ℕ)
      → covers d ss ≡ true
      → left ≤ size_of ss
      → total (hand_out (keys_of ss) left d) ≡ total d + left
  unfolding hand_out
  total-hand_out [] left d c h = omega arith
  total-hand_out (s ∷ ss) left d c h = ground (
    arith,
    total-add_one s.key d,
    covers-add_one s.key d ss,
    total-hand_out ss (left - 1) (add_one s.key d),
  )

module _ (m : Measures) (tokens sum : ℕ) where
  abbrev floors : Dict ℕ → Dict ℕ
  floors = map (λ (k, w). (k, tokens * w / sum))

  abbrev shares_in : Dict ℕ → List (Share m)
  shares_in = map (share m tokens sum)

  covers-floors : (weights : Dict ℕ) → covers m (floors weights) (shares_in weights) ≡ true
  covers-floors [] = refl
  covers-floors ((k, w) ∷ weights) = ground (
    arith,
    eq_iff k k,
    covers-more m k (tokens * w / sum) (floors weights) (shares_in weights),
    covers-floors weights,
  )

  size_of-shares : (weights : Dict ℕ) → size_of (shares_in weights) ≡ size_of weights
  size_of-shares [] = refl
  size_of-shares ((k, w) ∷ weights) = ap suc (size_of-shares weights)

  -- the whole tokens are at most the tokens, in parts of the sum of the weights
  floors_below : (weights : Dict ℕ) → total (floors weights) * sum ≤ tokens * total weights
  floors_below [] = omega arith
  floors_below ((k, w) ∷ weights) =
      let one = div-mul-le_self (tokens * w) sum in
      let left = add-mul (tokens * w / sum) (total (floors weights)) sum in
      let right = mul-add tokens w (total weights) in
      omega (arith, one, left, right, floors_below weights)

  -- and each section loses less than one
  floors_near :
      0 < sum
      → (weights : Dict ℕ)
      → tokens * total weights ≤ (total (floors weights) + size_of weights) * sum
  floors_near h [] = omega arith
  floors_near h ((k, w) ∷ weights) =
      let one = lt-div-mul-add {a = tokens * w} {b = sum} h in
      let left = add-mul (tokens * w / sum + 1) (total (floors weights) + size_of weights) sum in
      let first = add-mul (tokens * w / sum) 1 sum in
      let right = mul-add tokens w (total weights) in
      let shape : total (floors ((k, w) ∷ weights)) + size_of ((k, w) ∷ weights)
          ≡ tokens * w / sum + 1 + (total (floors weights) + size_of weights) =
        omega arith in
      subst (λ n. tokens * total ((k, w) ∷ weights) ≤ n * sum) (sym shape)
        (omega (arith, one, left, first, right, floors_near h weights))

total-select : (d : Dict ℕ) → total (select (λ (k, n). not (n == 0)) d) ≡ total d
total-select [] = refl
total-select ((k, n) ∷ d) = ground (arith, ==_iff n 0, total-select d)

module _ (m : Measures) where
  total-divide :
      (tokens : ℕ) (weights : Dict ℕ) → 0 < total weights → total (divide m tokens weights) ≡ tokens
  unfolding divide
  total-divide tokens weights h =
      let whole = floors_of m tokens weights in
      let ss = shares m tokens weights in
      let below : total whole ≤ tokens =
        le_of_mul-le-mul_right (floors_below m tokens (total weights) weights) h in
      let near : tokens ≤ total whole + size_of weights =
        le_of_mul-le-mul_right (floors_near m tokens (total weights) h weights) h in
      let many : size_of (by_fraction m ss) ≡ size_of weights =
        size_of-by_fraction m ss ∙ size_of-shares m tokens (total weights) weights in
      let covered : covers m whole (by_fraction m ss) ≡ true =
        covers-by_fraction m whole ss ∙ covers-floors m tokens (total weights) weights in
      let given =
        total-hand_out m (by_fraction m ss) (tokens - total whole) whole covered
          (omega (arith, near, many)) in
      total-select
        (hand_out (map (λ (s : Share m). s.key) (by_fraction m ss)) (tokens - total whole) whole)
      ∙ given
      ∙ omega (arith, below)

  -- The tokens of a completion are divided without a rest: where the sections that are asked for have
  -- some weight, the shares of the estimate add up to the tokens. Where there is no payload, there are
  -- no tokens or the sections have no weight, the estimate is empty.
  pub estimate_total :
      (payload : Dict Json) (tokens : ℕ) (requested : Option (List String))
      → (0 < total (weights_of m payload requested)
          → total (estimate_section_tokens m (some payload) tokens requested) ≡ tokens)
        × ((tokens ≡ 0) ⊎ (total (weights_of m payload requested) ≡ 0)
            → estimate_section_tokens m (some payload) tokens requested ≡ [])
        × (estimate_section_tokens m none tokens requested ≡ [])
  unfolding estimate_section_tokens
  estimate_total payload tokens requested = (
    λ h. ground (arith, total-divide tokens (weights_of m payload requested)),
    λ h. ground arith,
    refl,
  )
