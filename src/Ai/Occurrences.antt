-- ===== src/Ai/Occurrences.antt =====
-- utils/section_tokens.py: a section has one weight.
use recentthink_ai_be.Common.{
  ℕ, ◌≤◌, String, Bool, Option, none, some, List, [], ◌∷◌, arith, Dict, lookup, insert, occurs,
  occurs-insert, select,
}
use recentthink_ai_be.Ai.Json.{Json, dict_at, not_none}
use recentthink_ai_be.Ai.Sections.{top_keys, nest_keys, allows_lowered, is_requested}
use recentthink_ai_be.Ai.Estimate.{
  Measures, size, weigh_top, weigh_children, weigh_nests, only, weights_of,
}

module _ (m : Measures) (other : String) where
  occurs-weigh_top :
      (keys : List String) (payload : Dict Json) (weights : Dict ℕ)
      → occurs other weights ≤ 1
      → occurs other (weigh_top m keys payload weights) ≤ 1
  unfolding weigh_top
  occurs-weigh_top [] payload weights h = h
  occurs-weigh_top (key ∷ keys) payload weights h =
      elim (not_none (lookup key payload))
        as (λ o.
          occurs other (
            weigh_top m keys payload
              (elim o [ none ↦ weights | some v ↦ insert key (size m v) weights ]))
          ≤ 1) [
            | none ↦ occurs-weigh_top keys payload weights h
            | some v ↦
                occurs-weigh_top keys payload (insert key (size m v) weights)
                  (occurs-insert key other (size m v) weights h)
          ]

  occurs-weigh_children :
      (children : Dict Json) (weights : Dict ℕ)
      → occurs other weights ≤ 1
      → occurs other (weigh_children m children weights) ≤ 1
  unfolding weigh_children
  occurs-weigh_children [] weights h = h
  occurs-weigh_children ((k, v) ∷ children) weights h =
      elim (not_none (some v))
        as (λ o.
          occurs other (
            weigh_children m children
              (elim o [ none ↦ weights | some x ↦ insert k (size m x) weights ]))
          ≤ 1) [
            | none ↦ occurs-weigh_children children weights h
            | some x ↦
                occurs-weigh_children children (insert k (size m x) weights)
                  (occurs-insert k other (size m x) weights h)
          ]

  occurs-weigh_nests :
      (keys : List String) (payload : Dict Json) (weights : Dict ℕ)
      → occurs other weights ≤ 1
      → occurs other (weigh_nests m keys payload weights) ≤ 1
  unfolding weigh_nests
  occurs-weigh_nests [] payload weights h = h
  occurs-weigh_nests (key ∷ keys) payload weights h =
      elim (dict_at (lookup key payload))
        as (λ o.
          occurs other (
            weigh_nests m keys payload
              (elim o [ none ↦ weights | some c ↦ weigh_children m c weights ]))
          ≤ 1) [
            | none ↦ occurs-weigh_nests keys payload weights h
            | some c ↦
                occurs-weigh_nests keys payload (weigh_children m c weights)
                  (occurs-weigh_children c weights h)
          ]

  pub occurs-select :
      (p : String × ℕ → Bool) (d : Dict ℕ) → occurs other (select p d) ≤ occurs other d
  occurs-select p [] = omega arith
  occurs-select p ((k, n) ∷ d) = ground (arith, occurs-select p d)

  pub occurs-weights_of :
      (payload : Dict Json) (requested : Option (List String))
      → occurs other (weights_of m payload requested) ≤ 1
  unfolding weights_of
  occurs-weights_of payload requested =
      let all = weigh_nests m nest_keys payload (weigh_top m top_keys payload []) in
      let once : occurs other all ≤ 1 =
        occurs-weigh_nests nest_keys payload (weigh_top m top_keys payload [])
          (occurs-weigh_top top_keys payload [] (omega arith)) in
      elim (is_requested requested) as (λ r. occurs other (only m r all) ≤ 1) [
        | none ↦ once
        | some sections ↦
            omega (arith, once, occurs-select (λ (k, n). allows_lowered sections k) all)
      ]
