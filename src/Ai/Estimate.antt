-- ===== src/Ai/Estimate.antt =====
-- utils/section_tokens.py: how the tokens of a completion are divided among the sections of a payload.
-- The length of a value as JSON, and the fraction that a share loses to rounding, which the source
-- computes in floating point, are parameters.
use recentthink_ai_be.Common.{
  ℕ, ◌+◌, ◌-◌, ◌*◌, ◌/◌, String, Bool, Option, none, some, List, [], ◌∷◌, Dict, lookup, insert,
  str_eq, ◌&&◌, ◌||◌, not, ◌==◌, ltb, leb, map, select, if◌then◌else◌,
}
use recentthink_ai_be.Ai.Json.{Json, dict_at, not_none}
use recentthink_ai_be.Ai.Sections.{top_keys, nest_keys, allows_lowered, is_requested}

-- `max(1, n)`
abbrev pub at_least_one : ℕ → ℕ
at_least_one n = if n == 0 then 1 else n

abbrev pub total : Dict ℕ → ℕ
total [] = 0
total ((k, n) ∷ d) = n + total d

-- what the source measures in texts and in floating point
pub record Measures : Type 0 where
  pub dumped_length : Json → ℕ
  pub fraction : ℕ → ℕ → ℕ → ℕ

module _ (m : Measures) where
  -- `_size`
  unfoldable pub size : Json → ℕ
  size v = at_least_one (m.dumped_length v)

  unfoldable pub weigh_top : List String → Dict Json → Dict ℕ → Dict ℕ
  unfolding size
  weigh_top [] payload weights = weights
  weigh_top (key ∷ keys) payload weights =
      weigh_top keys payload (elim (not_none (lookup key payload)) [
        | none ↦ weights
        | some v ↦ insert key (size v) weights
      ])

  unfoldable pub weigh_children : Dict Json → Dict ℕ → Dict ℕ
  unfolding size
  weigh_children [] weights = weights
  weigh_children ((k, v) ∷ children) weights =
      weigh_children children
        (elim (not_none (some v)) [ none ↦ weights | some x ↦ insert k (size x) weights ])

  unfoldable pub weigh_nests : List String → Dict Json → Dict ℕ → Dict ℕ
  unfolding weigh_children
  weigh_nests [] payload weights = weights
  weigh_nests (key ∷ keys) payload weights =
      weigh_nests keys payload (elim (dict_at (lookup key payload)) [
        | none ↦ weights
        | some children ↦ weigh_children children weights
      ])

  abbrev pub only : Option (List String) → Dict ℕ → Dict ℕ
  only none weights = weights
  only (some sections) weights = select (λ (k, n). allows_lowered sections k) weights

  unfoldable pub weights_of : Dict Json → Option (List String) → Dict ℕ
  unfolding weigh_top weigh_nests
  weights_of payload requested =
      only (is_requested requested) (weigh_nests nest_keys payload (weigh_top top_keys payload []))

  -- A section with its weight, and the whole tokens of its share.
  pub record Share : Type 0 where
    pub key : String
    pub weight : ℕ
    pub floor : ℕ
    pub lost : ℕ

  abbrev pub share : ℕ → ℕ → String × ℕ → Share
  share tokens sum (k, w) = record {
    key = k;
    weight = w;
    floor = tokens * w / sum;
    lost = m.fraction tokens w sum;
  }

  -- does the first go before the second, or are they equal, by fraction and then by weight?
  abbrev pub not_before : Share → Share → Bool
  not_before a b = ltb b.lost a.lost || (a.lost == b.lost && leb b.weight a.weight)

  -- `sorted(…, reverse=True)`, which keeps the order of equals
  unfoldable pub insert_share : Share → List Share → List Share
  insert_share a [] = a ∷ []
  insert_share a (b ∷ bs) =
      let rest = insert_share a bs in if not_before a b then a ∷ b ∷ bs else b ∷ rest

  unfoldable pub by_fraction : List Share → List Share
  unfolding insert_share
  by_fraction [] = []
  by_fraction (a ∷ as_) = insert_share a (by_fraction as_)

abbrev pub add_one : String → Dict ℕ → Dict ℕ
add_one key [] = []
add_one key ((k, n) ∷ d) =
    let rest = add_one key d in if str_eq k key then (k, n + 1) ∷ d else (k, n) ∷ rest

-- the loop that hands out the tokens that are left, one to each key in turn
unfoldable pub hand_out : List String → ℕ → Dict ℕ → Dict ℕ
hand_out [] remainder floors = floors
hand_out (key ∷ keys) remainder floors =
    let rest = hand_out keys (remainder - 1) (add_one key floors) in
    if remainder == 0 then floors else rest

module _ (m : Measures) where
  abbrev pub shares : ℕ → Dict ℕ → List (Share m)
  shares tokens weights = map (share m tokens (total weights)) weights

  abbrev pub floors_of : ℕ → Dict ℕ → Dict ℕ
  floors_of tokens weights = map (λ (k, w). (k, tokens * w / total weights)) weights

  unfoldable pub divide : ℕ → Dict ℕ → Dict ℕ
  unfolding by_fraction hand_out
  divide tokens weights =
      let floors = floors_of tokens weights in
      select (λ (k, n). not (n == 0))
        (hand_out (map (λ (s : Share m). s.key) (by_fraction m (shares tokens weights)))
          (tokens - total floors) floors)

  unfoldable pub estimate_section_tokens : Option (Dict Json) → ℕ → Option (List String) → Dict ℕ
  unfolding weights_of divide
  estimate_section_tokens none tokens requested = []
  estimate_section_tokens (some payload) tokens requested =
      let weights = weights_of m payload requested in
      if tokens == 0 || total weights == 0 then [] else divide tokens weights
