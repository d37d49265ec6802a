-- ===== src/Ai/Generation/Ending.antt =====
-- agents/shared/workflow/nodes.py: how the loops that ask the model end.
use recentthink_ai_be.Common.{
  ℕ, zero, suc, ◌+◌, ◌-◌, ◌≤◌, ◌<◌, ◌≡◌, ◌≢◌, refl, subst, String, Bool, true, false, Option, none,
  some, List, Dict, ◌&&◌, ◌||◌, not, ◌==◌, arith, if◌then◌else◌,
}
use recentthink_ai_be.Ai.Json.{Json}
use recentthink_ai_be.Ai.Sections.{is_requested}
use recentthink_ai_be.Ai.Tokens.{max, more_tokens_bounds}
use recentthink_ai_be.Ai.Generation.Types.{
  Response, Checks, Validation, valid, invalid, Failure, empty_feature, Verdict, accept, again,
  give_up, cut_off, empty_verdict, judge_payload, judge_invalid, judge,
}
use recentthink_ai_be.Ai.Generation.Loop.{
  Outcome, generated, failed, raised, generate_from, generate,
}

module _ (checks : Checks) (requested : Option (List String)) where
  -- A payload that may be taken from an answer: it is the answer's, normalized, and if no sections were
  -- asked for, the content of the feature is not missing.
  pub record Sound (payload : Dict Json) (r : Response) : Type 0 where
    pub parsed : Dict Json
    pub is_valid : checks.validate r.content ≡ valid parsed
    pub normalized : payload ≡ checks.normalize parsed
    pub has_content :
        is_requested requested ≡ none → checks.feature_payload_missing_content payload ≡ false

  -- what a verdict says
  abbrev Says : Bool → ℕ → Response → Verdict → Type 0
  Says more tokens r (accept payload) = Sound payload r
  Says more tokens r (again error tokens') = tokens' ≤ max tokens 16000
  Says more tokens r (give_up error) = (error ≡ empty_feature) × (more ≡ false)

  Says-cases :
      (tokens : ℕ) (r : Response) (payload : Dict Json) (error : Failure)
      (empty missing more : Bool)
      → (missing ≡ false → Sound payload r)
      → Says more tokens r (
          if (empty || missing) && more
          then again error tokens
          else if missing
          then give_up empty_feature
          else accept payload)
  Says-cases tokens r payload error true missing true s = ground arith
  Says-cases tokens r payload error false true true s = ground arith
  Says-cases tokens r payload error false false true s = s refl
  Says-cases tokens r payload error true true false s = (refl, refl)
  Says-cases tokens r payload error true false false s = s refl
  Says-cases tokens r payload error false true false s = (refl, refl)
  Says-cases tokens r payload error false false false s = s refl

  Says-payload :
      (more : Bool) (tokens : ℕ) (r : Response) (parsed payload : Dict Json)
      → checks.validate r.content ≡ valid parsed
      → payload ≡ checks.normalize parsed
      → (o : Option (List String)) → is_requested requested ≡ o
      → Says more tokens r (judge_payload checks o more tokens payload)
  unfolding judge_payload
  Says-payload more tokens r parsed payload v n (some sections) q = record {
    parsed = parsed;
    is_valid = v;
    normalized = n;
    has_content = λ e. absurd (ground arith);
  }
  Says-payload more tokens r parsed payload v n none q =
      Says-cases tokens r payload (empty_verdict checks payload)
        (checks.is_llm_response_empty payload) (checks.feature_payload_missing_content payload) more
        (λ there. record {
          parsed = parsed;
          is_valid = v;
          normalized = n;
          has_content = λ e. there;
        })

  Says-invalid :
      (grows more : Bool) (tokens : ℕ) (r : Response) (error : String)
      → Says more tokens r (judge_invalid checks grows tokens error)
  Says-invalid true more tokens r error = ground (arith, (more_tokens_bounds tokens).0)
  Says-invalid false more tokens r error = ground arith

  Says-judge :
      (grows more : Bool) (tokens : ℕ) (r : Response)
      → Says more tokens r (judge checks grows requested more tokens r)
  unfolding judge
  Says-judge grows more tokens r = says (checks.validate r.content) refl
    where
      says :
          (o : Validation)
          → checks.validate r.content ≡ o
          → Says more tokens r (elim o [
            | valid parsed ↦
                judge_payload checks (is_requested requested) more tokens (checks.normalize parsed)
            | invalid error ↦ judge_invalid checks (grows && cut_off r) tokens error
          ])
      says (valid parsed) e =
          Says-payload more tokens r parsed (checks.normalize parsed) e refl
            (is_requested requested) refl
      says (invalid error) e = Says-invalid (grows && cut_off r) more tokens r error

module _ (checks : Checks) (complete : ℕ → ℕ → Option Response)
    (requested : Option (List String)) where
  -- how a loop with so many calls at most ends, if the tokens keep to a limit
  abbrev pub Ends : ℕ → ℕ → Outcome × ℕ → Type 0
  Ends most limit (generated payload r, calls) =
      (tokens : ℕ) × (tokens ≤ limit)
      × (complete (calls - 1) tokens ≡ some r)
      × Sound checks requested payload r
  Ends most limit (failed error, calls) = (error ≢ none) × (calls ≡ most)
  Ends most limit (raised, calls) =
      (tokens : ℕ) × (tokens ≤ limit) × (complete (calls - 1) tokens ≡ none)

  -- and how many calls it makes
  abbrev pub Within : ℕ → ℕ → ℕ → Outcome × ℕ → Type 0
  Within calls most limit o = (calls < o.1) × (o.1 ≤ most) × Ends most limit o

  module _ (limit : ℕ) (high : 16000 ≤ limit) (calls most tokens : ℕ) (more : Bool)
      (next : ℕ → Failure → Outcome × ℕ) where
    -- one round, given the loop after it
    Within-round :
        tokens ≤ limit
        → suc calls ≤ most
        → (more ≡ false → suc calls ≡ most)
        → ((tokens' : ℕ) (error : Failure)
            → tokens' ≤ limit
            → Within calls most limit (next tokens' error))
        → Within calls most limit (elim (complete calls tokens) [
          | none ↦ (raised, suc calls)
          | some r ↦ elim (judge checks true requested more tokens r) [
            | accept payload ↦ (generated payload r, suc calls)
            | again error tokens' ↦ next tokens' error
            | give_up error ↦ (failed (some error), suc calls)
          ]
        ])
    Within-round low few last after = answered (complete calls tokens) refl
      where
        judged :
            (r : Response)
            → complete calls tokens ≡ some r
            → (v : Verdict) → Says checks requested more tokens r v
            → Within calls most limit (elim v [
              | accept payload ↦ (generated payload r, suc calls)
              | again error tokens' ↦ next tokens' error
              | give_up error ↦ (failed (some error), suc calls)
            ])
        judged r e (accept payload) s = (
          omega arith,
          few,
          (tokens, low, subst (λ n. complete n tokens ≡ some r) (omega arith) e, s),
        )
        judged r e (again error tokens') s = after tokens' error (ground arith)
        judged r e (give_up error) s = (omega arith, few, (λ q. cc, last s.1))

        answered :
            (o : Option Response)
            → complete calls tokens ≡ o
            → Within calls most limit (elim o [
              | none ↦ (raised, suc calls)
              | some r ↦ elim (judge checks true requested more tokens r) [
                | accept payload ↦ (generated payload r, suc calls)
                | again error tokens' ↦ next tokens' error
                | give_up error ↦ (failed (some error), suc calls)
              ]
            ])
        answered none e =
            (omega arith, few, (tokens, low, subst (λ n. complete n tokens ≡ none) (omega arith) e))
        answered (some r) e =
            judged r e (judge checks true requested more tokens r)
              (Says-judge checks requested true more tokens r)

  Within-earlier :
      (calls most limit : ℕ) (o : Outcome × ℕ)
      → Within (suc calls) most limit o
      → Within calls most limit o
  Within-earlier calls most limit o w = (omega (arith, w.0), w.1, w.2)

  Within-generate_from :
      (limit left calls tokens : ℕ) (last_error : Option Failure)
      → 16000 ≤ limit
      → tokens ≤ limit
      → Within calls
          (calls + suc left)
          limit
          (generate_from checks complete requested (suc left) calls tokens last_error)
  unfolding generate_from
  Within-generate_from limit zero calls tokens last_error high low =
      Within-round limit high calls (calls + 1) tokens false
        (λ tokens' error. (failed (some error), suc calls)) low (omega arith) (λ e. omega arith)
        (λ tokens' error low'. (omega arith, omega arith, (λ q. cc, omega arith)))
  Within-generate_from limit (suc left) calls tokens last_error high low =
      let shape : suc calls + suc left ≡ calls + suc (suc left) = omega arith in
      let more : (suc left == 0) ≡ false = ground arith in
      Within-round limit high calls (calls + suc (suc left)) tokens (not (suc left == 0))
        (λ tokens' error.
          generate_from checks complete requested (suc left) (suc calls) tokens' (some error))
        low (omega arith) (λ e. absurd (ground arith))
        (λ tokens' error low'. Within-earlier calls (calls + suc (suc left)) limit _ (
          subst
            (λ n.
              Within (suc calls) n limit (
                generate_from checks complete requested (suc left) (suc calls) tokens'
                  (some error)))
            shape (Within-generate_from limit left (suc calls) tokens' (some error) high low')))

  -- The loop of a node ends: it calls the model at least once and at most once more than the retries that
  -- are allowed, with at most 16000 tokens or, if that is more, the number it starts with. It answers
  -- with a payload that the last call gave, valid and normalized, whose content is not missing unless
  -- single sections were asked for; or it fails with an error, after all calls that are allowed; or
  -- the last call raised an exception.
  pub generate_ends :
      (max_retries max_tokens : ℕ)
      → Within 0
          (suc max_retries)
          (max max_tokens 16000)
          (generate checks complete requested max_retries max_tokens)
  unfolding generate
  generate_ends max_retries max_tokens =
      subst
        (λ n.
          Within 0 n (max max_tokens 16000)
            (generate_from checks complete requested (suc max_retries) 0 max_tokens none))
        (omega arith)
        (Within-generate_from (max max_tokens 16000) max_retries 0 max_tokens none (ground arith)
          (ground arith))
