-- ===== src/Ai/Fairness.antt =====
-- utils/section_tokens.py: the share of a section is within one token of its exact part.
use native.Mathlib.Nat.{
  zero-div, add-mul, div-mul-le_self, lt-div-mul-add, mul-zero, zero-mul, mul-le-mul_right,
}
use recentthink_ai_be.Common.{
  ℕ, zero, suc, ◌+◌, ◌-◌, ◌*◌, ◌/◌, ◌≤◌, ◌<◌, ◌≡◌, refl, sym, ap, ◌∙◌, String, false, Option, some,
  List, [], ◌∷◌, arith, Dict, occurs, str_eq, eq_iff, not, ◌==◌, ==_iff, map, select, if◌then◌else◌,
}
use recentthink_ai_be.Ai.Json.{Json}
use recentthink_ai_be.Ai.Occurrences.{occurs-weights_of}
use recentthink_ai_be.Ai.Estimate.{
  Measures, Share, total, share, weights_of, insert_share, by_fraction, add_one, hand_out, shares,
  floors_of, divide, estimate_section_tokens,
}

-- `d.get(key, 0)`
abbrev pub value_at : String → Dict ℕ → ℕ
value_at key [] = 0
value_at key ((k, n) ∷ d) = if str_eq k key then n else value_at key d

module _ (other : String) where
  value_at-add_one :
      (key : String) (d : Dict ℕ)
      → value_at other (add_one key d) ≤ value_at other d + (if str_eq key other then 1 else 0)
  value_at-add_one key [] = omega arith
  value_at-add_one key ((k, n) ∷ d) =
      ground (arith, eq_iff k key, eq_iff k other, eq_iff key other, value_at-add_one key d)

  value_at-add_one_least :
      (key : String) (d : Dict ℕ) → value_at other d ≤ value_at other (add_one key d)
  value_at-add_one_least key [] = omega arith
  value_at-add_one_least key ((k, n) ∷ d) = ground (arith, value_at-add_one_least key d)

  -- how many of the keys are the one
  abbrev among : List String → ℕ
  among [] = 0
  among (k ∷ ks) = let rest = among ks in if str_eq k other then suc rest else rest

  occurs-add_one : (key : String) (d : Dict ℕ) → occurs other (add_one key d) ≡ occurs other d
  occurs-add_one key [] = refl
  occurs-add_one key ((k, n) ∷ d) = ground (arith, occurs-add_one key d)

  value_at-hand_out :
      (keys : List String) (left : ℕ) (d : Dict ℕ)
      → value_at other (hand_out keys left d) ≤ value_at other d + among keys
  unfolding hand_out
  value_at-hand_out [] left d = omega arith
  value_at-hand_out (key ∷ keys) left d =
      ground (arith, value_at-add_one key d, value_at-hand_out keys (left - 1) (add_one key d))

  value_at-hand_out_least :
      (keys : List String) (left : ℕ) (d : Dict ℕ)
      → value_at other d ≤ value_at other (hand_out keys left d)
  unfolding hand_out
  value_at-hand_out_least [] left d = omega arith
  value_at-hand_out_least (key ∷ keys) left d =
      ground (
        arith,
        value_at-add_one_least key d,
        value_at-hand_out_least keys (left - 1) (add_one key d),
      )

  occurs-hand_out :
      (keys : List String) (left : ℕ) (d : Dict ℕ)
      → occurs other (hand_out keys left d) ≡ occurs other d
  unfolding hand_out
  occurs-hand_out [] left d = refl
  occurs-hand_out (key ∷ keys) left d =
      ground (arith, occurs-add_one key d, occurs-hand_out keys (left - 1) (add_one key d))

  value_at-none : (d : Dict ℕ) → occurs other d ≡ 0 → value_at other d ≡ 0
  value_at-none [] h = refl
  value_at-none ((k, n) ∷ d) h = ground (arith, value_at-none d)

  value_at-select :
      (d : Dict ℕ)
      → occurs other d ≤ 1
      → value_at other (select (λ (k, n). not (n == 0)) d) ≡ value_at other d
  value_at-select [] h = refl
  value_at-select ((k, n) ∷ d) h = ground (arith, ==_iff n 0, value_at-select d, value_at-none d)

module _ (m : Measures) (other : String) where
  among-insert_share :
      (s : Share m) (ss : List (Share m))
      → among other (map (λ (s : Share m). s.key) (insert_share m s ss))
        ≡ among other (s.key ∷ map (λ (s : Share m). s.key) ss)
  unfolding insert_share
  among-insert_share s [] = refl
  among-insert_share s (t ∷ ss) = ground (arith, among-insert_share s ss)

  among-by_fraction :
      (ss : List (Share m))
      → among other (map (λ (s : Share m). s.key) (by_fraction m ss))
        ≡ among other (map (λ (s : Share m). s.key) ss)
  unfolding by_fraction
  among-by_fraction [] = refl
  among-by_fraction (s ∷ ss) =
      ground (arith, among-insert_share s (by_fraction m ss), among-by_fraction ss)

  module _ (tokens sum : ℕ) where
    among-shares :
        (weights : Dict ℕ)
        → among other (map (λ (s : Share m). s.key) (map (share m tokens sum) weights))
          ≡ occurs other weights
    among-shares [] = refl
    among-shares ((k, w) ∷ weights) = ground (arith, among-shares weights)

    occurs-floors :
        (weights : Dict ℕ)
        → occurs other (map (λ (k, w). (k, tokens * w / sum)) weights) ≡ occurs other weights
    occurs-floors [] = refl
    occurs-floors ((k, w) ∷ weights) = ground (arith, occurs-floors weights)

    value_at-floors :
        (weights : Dict ℕ)
        → value_at other (map (λ (k, w). (k, tokens * w / sum)) weights)
          ≡ tokens * value_at other weights / sum
    value_at-floors [] = sym (ap (λ n. n / sum) (mul-zero tokens) ∙ zero-div sum)
    value_at-floors ((k, w) ∷ weights) = ground (arith, value_at-floors weights)

  value_at-divide :
      (tokens : ℕ) (weights : Dict ℕ)
      → occurs other weights ≤ 1
      → (tokens * value_at other weights / total weights ≤ value_at other (divide m tokens weights))
        × (value_at other (divide m tokens weights)
            ≤ tokens * value_at other weights / total weights + 1)
  unfolding divide
  value_at-divide tokens weights once =
      let whole = floors_of m tokens weights in
      let keys = map (λ (s : Share m). s.key) (by_fraction m (shares m tokens weights)) in
      let left = tokens - total whole in
      let floor = value_at-floors tokens (total weights) weights in
      let few : among other keys ≡ occurs other weights =
        among-by_fraction (shares m tokens weights) ∙ among-shares tokens (total weights) weights in
      let kept = value_at-select other (hand_out keys left whole) (
        omega (
          arith,
          occurs-hand_out other keys left whole,
          occurs-floors tokens (total weights) weights,
          once,
        )) in
      (
        omega (arith, kept, floor, value_at-hand_out_least other keys left whole),
        omega (arith, kept, floor, few, once, value_at-hand_out other keys left whole),
      )

  estimate_divides :
      (payload : Dict Json) (tokens : ℕ) (requested : Option (List String))
      → 0 < total (weights_of m payload requested)
      → estimate_section_tokens m (some payload) tokens requested
        ≡ (if tokens == 0 then [] else divide m tokens (weights_of m payload requested))
  unfolding estimate_section_tokens
  estimate_divides payload tokens requested h = ground arith

  -- how near the share of the estimate is to its whole tokens
  abbrev Near : Dict ℕ → ℕ → Dict ℕ → Type 0
  Near weights tokens d =
      (tokens * value_at other weights / total weights ≤ value_at other d)
      × (value_at other d ≤ tokens * value_at other weights / total weights + 1)

  Near-estimate :
      (payload : Dict Json) (tokens : ℕ) (requested : Option (List String))
      → 0 < total (weights_of m payload requested)
      → Near
          (weights_of m payload requested)
          tokens
          (estimate_section_tokens m (some payload) tokens requested)
  Near-estimate payload tokens requested h =
      let weights = weights_of m payload requested in
      let nothing : 0 * value_at other weights / total weights ≡ 0 =
        ap (λ n. n / total weights) (zero-mul (value_at other weights))
        ∙ zero-div (total weights) in
      rw (estimate_divides payload tokens requested h)
        (elim tokens as (λ n. Near weights n (if n == 0 then [] else divide m n weights)) [
          | zero ↦ (omega (arith, nothing), omega (arith, nothing))
          | suc n ↦
              let differ : (suc n == 0) ≡ false = ground arith in
              rw differ
                (value_at-divide (suc n) weights (occurs-weights_of m other payload requested))
        ])

  -- The division is fair: where the sections that are asked for have some weight, the share of a
  -- section, or nothing if it has none, is less than one token below its exact part of the tokens,
  -- which is by weight, and at most one token above it.
  pub estimate_fair :
      (payload : Dict Json) (tokens : ℕ) (requested : Option (List String))
      → 0 < total (weights_of m payload requested)
      → (tokens * value_at other (weights_of m payload requested)
          < (value_at other (estimate_section_tokens m (some payload) tokens requested) + 1)
            * total (weights_of m payload requested))
        × (value_at other (estimate_section_tokens m (some payload) tokens requested)
              * total (weights_of m payload requested)
            ≤ tokens * value_at other (weights_of m payload requested)
              + total (weights_of m payload requested))
  estimate_fair payload tokens requested h =
      let sum = total (weights_of m payload requested) in
      let exact = tokens * value_at other (weights_of m payload requested) in
      let share = value_at other (estimate_section_tokens m (some payload) tokens requested) in
      let bounds = Near-estimate payload tokens requested h in
      let below =
        mul-le-mul_right {m = exact / sum + 1} {n = share + 1} sum (omega (arith, bounds.0)) in
      let above = mul-le-mul_right {m = share} {n = exact / sum + 1} sum bounds.1 in
      (
        omega (arith, below, lt-div-mul-add {a = exact} {b = sum} h, add-mul (exact / sum) 1 sum),
        omega (arith, above, div-mul-le_self exact sum, add-mul (exact / sum) 1 sum),
      )
