-- ===== src/Ai/Tokens.antt =====
-- core/feature_tokens.py: how many tokens an answer may have.
use recentthink_ai_be.Common.{
  ℕ, suc, ◌+◌, ◌*◌, ◌/◌, ◌≤◌, ◌<◌, ◌≡◌, refl, sym, ap, ◌∙◌, subst, String, Option, none, some, List,
  [], ◌∷◌, arith, Dict, leb, ltb, if◌then◌else◌,
}
use recentthink_ai_be.Common.Texts.{at_lowered}
use recentthink_ai_be.Ai.Sections.{is_requested}

abbrev pub max : ℕ → ℕ → ℕ
max a b = if leb a b then b else a

abbrev pub min : ℕ → ℕ → ℕ
min a b = if leb a b then a else b

abbrev pub feature_max_tokens : Dict ℕ
feature_max_tokens =
    ("leetcode", 1800)
    ∷ ("hackerrank", 1800)
    ∷ ("dsa", 8192)
    ∷ ("dsa_pattern", 8192)
    ∷ ("course_generator", 12288)
    ∷ ("course", 12288)
    ∷ ("interview", 2200)
    ∷ []

abbrev pub default_max_tokens : ℕ
default_max_tokens = 1800

abbrev pub length {ℓ} : {A : Type ℓ} → List A → ℕ
length [] = 0
length (x ∷ xs) = suc (length xs)

-- `limits or FEATURE_MAX_TOKENS`
abbrev pub table : Option (Dict ℕ) → Dict ℕ
table none = feature_max_tokens
table (some []) = feature_max_tokens
table (some (x ∷ xs)) = x ∷ xs

abbrev pub base_tokens : String → Option ℕ → Option (Dict ℕ) → ℕ
base_tokens feature none limits = at_lowered feature (table limits) default_max_tokens
base_tokens feature (some n) limits =
    if ltb 0 n then n else at_lowered feature (table limits) default_max_tokens

at_least : (base n : ℕ) → 400 ≤ max 400 (min base n)
at_least base n = ground arith

at_most : (base n : ℕ) → 400 ≤ base → max 400 (min base n) ≤ base
at_most base n h = ground arith

below : (base n : ℕ) → base < 400 → max 400 (min base n) ≡ 400
below base n h = ground arith

-- `scaled base n` is `int(base * scale)` for `n` sections, which the source computes in floating point
module _ (scaled : ℕ → ℕ → ℕ) where
  unfoldable pub resolve_feature_max_tokens :
      String → Option ℕ → Option (List String) → Option (Dict ℕ) → ℕ
  unfolding at_lowered
  resolve_feature_max_tokens feature override requested limits =
      let base = base_tokens feature override limits in
      elim (is_requested requested) [
        | none ↦ base
        | some sections ↦ max 400 (min base (scaled base (length sections)))
      ]

  -- A request for all sections has the client's number of tokens if it is positive, and else that of
  -- the feature. A request for some sections never has fewer than 400 tokens, and never more than the
  -- full number unless that is below 400: then it has 400, also where the client asked for less.
  pub tokens_bounds :
      (feature : String) (override : Option ℕ) (limits : Option (Dict ℕ)) (s : String)
      (sections : List String)
      → (resolve_feature_max_tokens feature override none limits
          ≡ base_tokens feature override limits)
        × (400 ≤ resolve_feature_max_tokens feature override (some (s ∷ sections)) limits)
        × (400 ≤ base_tokens feature override limits
            → resolve_feature_max_tokens feature override (some (s ∷ sections)) limits
              ≤ base_tokens feature override limits)
        × (base_tokens feature override limits < 400
            → resolve_feature_max_tokens feature override (some (s ∷ sections)) limits ≡ 400)
  unfolding resolve_feature_max_tokens
  tokens_bounds feature override limits s sections =
      let base = base_tokens feature override limits in
      let some_tokens = scaled base (suc (length sections)) in
      (refl, at_least base some_tokens, at_most base some_tokens, below base some_tokens)

quarter_least : (n : ℕ) → max 400 (min n (n / 4)) ≡ max 400 (n / 4)
quarter_least n = ground arith

base_of_some :
    (feature : String) (limits : Option (Dict ℕ)) (n : ℕ)
    → 0 < n
    → base_tokens feature (some n) limits ≡ n
base_of_some feature limits n h = ground arith

-- The tokens of a request in graph.py `execute`, which puts them into the state, where nodes.py
-- `openrouter_node` takes them for the client's number.
module _ (scaled : ℕ → ℕ → ℕ) where
  unfoldable pub engine_tokens : String → Option ℕ → Option (List String) → Option (Dict ℕ) → ℕ
  engine_tokens feature override requested limits =
      resolve_feature_max_tokens scaled feature
        (some (resolve_feature_max_tokens scaled feature override requested limits)) requested
        limits

  -- The tokens are scaled twice: a request for one section, of which the scale is a quarter, asks the model
  -- with a quarter of the number that was resolved for it, or 400 tokens if that is more; so with fewer
  -- whenever the resolved number is above 400.
  pub tokens_scaled_twice :
      (feature : String) (override : Option ℕ) (limits : Option (Dict ℕ)) (s : String)
      → ((base : ℕ) → scaled base 1 ≡ base / 4)
      → let resolved = resolve_feature_max_tokens scaled feature override (some (s ∷ [])) limits in
        (engine_tokens feature override (some (s ∷ [])) limits ≡ max 400 (resolved / 4))
        × (400 < resolved → engine_tokens feature override (some (s ∷ [])) limits < resolved)
  unfolding engine_tokens resolve_feature_max_tokens
  tokens_scaled_twice feature override limits s quarter =
      let resolved = max 400 (
        min (base_tokens feature override limits)
          (scaled (base_tokens feature override limits) 1)) in
      let again : base_tokens feature (some resolved) limits ≡ resolved =
        base_of_some feature limits resolved (ground arith) in
      let second : max 400 (
            min (base_tokens feature (some resolved) limits)
              (scaled (base_tokens feature (some resolved) limits) 1))
          ≡ max 400 (resolved / 4) =
        ap (λ n. max 400 (min n (scaled n 1))) again
        ∙ ap (λ n. max 400 (min resolved n)) (quarter resolved)
        ∙ quarter_least resolved in
      (second, λ h. subst (λ n. n < resolved) (sym second) (ground arith))

-- the tokens of the next attempt, after an answer that was cut off
unfoldable pub more_tokens : ℕ → ℕ
more_tokens tokens = min 16000 (max (tokens + 2048) (tokens * 7 / 4))

-- An attempt after an answer that was cut off has at most 16000 tokens. If the attempt before it had
-- fewer than 16000, it has more tokens, at least 2048 more as far as the limit allows; if the attempt
-- before it had more than 16000, it has fewer.
pub more_tokens_bounds :
    (tokens : ℕ)
    → (more_tokens tokens ≤ 16000)
      × (tokens < 16000
          → (tokens < more_tokens tokens) × (min 16000 (tokens + 2048) ≤ more_tokens tokens))
      × (16000 < tokens → more_tokens tokens < tokens)
unfolding more_tokens
more_tokens_bounds tokens = (ground arith, λ h. (ground arith, ground arith), λ h. ground arith)
