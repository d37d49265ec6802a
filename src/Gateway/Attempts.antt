-- ===== src/Gateway/Attempts.antt =====
-- How often `_retry` sends, what it answers, and how long it waits.
use native.Mathlib.Nat.{two-pow-succ, mul-add}
use recentthink_ai_be.Common.{
  ℕ, zero, suc, ◌+◌, ◌-◌, ◌*◌, ◌^◌, ◌≤◌, ◌<◌, ◌≡◌, refl, true, false, ◌⊎◌, inl, inr, Bool-cases,
  arith, sym, ap, subst, ◌∙◌,
}
use recentthink_ai_be.Common.Tries.{waits, sum, sum-waits, Tries, Tries-one, Tries-more}
use recentthink_ai_be.Gateway.Retry.{
  Attempt, Outcome, Link, is_retryable, outcome_of, sent, sleep, retry_from, retry,
}

-- the wait after an attempt, of which the first is 1
abbrev pub wait_of : ℕ → ℕ → ℕ
wait_of base_delay attempt = base_delay * 2 ^ (attempt - 1)

-- A run of the loop between two states of the link.
abbrev pub Ran : (ℕ → Attempt) → ℕ → ℕ → ℕ → Link → Outcome → Link → Type 0
Ran reply base_delay attempt allowed l o l' =
    Tries (λ n. is_retryable (reply n)) (λ n. outcome_of (reply n)) (wait_of base_delay) attempt
      allowed l.sends l'.sends l.slept l'.slept o

module _ (reply : ℕ → Attempt) (max_attempts base_delay : ℕ) where
  abbrev Runs : ℕ → ℕ → Link → Outcome × Link → Type 0
  Runs attempt left l (o, l') = Ran reply base_delay attempt left l o l'

  retry_from_stop :
      (left attempt : ℕ) (l : Link)
      → (is_retryable (reply l.sends) ≡ false) ⊎ (max_attempts ≤ attempt)
      → retry_from reply max_attempts base_delay (suc left) attempt l
        ≡ (outcome_of (reply l.sends), sent l)
  unfolding retry_from
  retry_from_stop left attempt l h = ground arith

  retry_from_again :
      (left attempt : ℕ) (l : Link)
      → is_retryable (reply l.sends) ≡ true
      → attempt < max_attempts
      → retry_from reply max_attempts base_delay (suc left) attempt l
        ≡ retry_from reply max_attempts base_delay left
            (attempt + 1)
            (sleep (base_delay * 2 ^ (attempt - 1)) (sent l))
  unfolding retry_from
  retry_from_again left attempt l h lt = ground arith

  Ran-one :
      (left attempt : ℕ) (l : Link)
      → (is_retryable (reply l.sends) ≡ false) ⊎ (left ≡ 0)
      → Runs attempt (suc left) l (outcome_of (reply l.sends), sent l)
  Ran-one left attempt l h =
      Tries-one (λ n. is_retryable (reply n)) (λ n. outcome_of (reply n)) (wait_of base_delay)
        attempt left l.sends l.slept h

  Ran-more :
      (left attempt : ℕ) (l : Link) (o : Outcome) (l' : Link)
      → is_retryable (reply l.sends) ≡ true
      → Runs (attempt + 1) left (sleep (base_delay * 2 ^ (attempt - 1)) (sent l)) (o, l')
      → Runs attempt (suc left) l (o, l')
  Ran-more left attempt l o l' again r =
      Tries-more (λ n. is_retryable (reply n)) (λ n. outcome_of (reply n)) (wait_of base_delay)
        attempt left l.sends l'.sends l.slept l'.slept o again r

  retry_from-Ran :
      (left attempt : ℕ) (l : Link)
      → attempt + left ≡ max_attempts
      → Runs attempt (suc left) l (retry_from reply max_attempts base_delay (suc left) attempt l)
  retry_from-Ran zero attempt l e =
      subst (Runs attempt 1 l) (sym (retry_from_stop 0 attempt l (inr (omega arith))))
        (Ran-one 0 attempt l (inr refl))
  retry_from-Ran (suc left) attempt l e = elim (Bool-cases (is_retryable (reply l.sends))) [
    | inr final ↦
        subst (Runs attempt (suc (suc left)) l)
          (sym (retry_from_stop (suc left) attempt l (inl final)))
          (Ran-one (suc left) attempt l (inl final))
    | inl again ↦
        subst (Runs attempt (suc (suc left)) l)
          (sym (retry_from_again (suc left) attempt l again (omega arith)))
          (Ran-more (suc left) attempt l _ _ again (
            retry_from-Ran left (attempt + 1) (sleep (base_delay * 2 ^ (attempt - 1)) (sent l))
              (omega arith)))
  ]

  wait_of_doubles :
      (j : ℕ)
      → wait_of base_delay (suc (1 + j)) ≡ wait_of base_delay (1 + j) + wait_of base_delay (1 + j)
  wait_of_doubles j =
      ap (λ n. base_delay * 2 ^ n) {x = suc (1 + j) - 1} {y = suc j} (omega arith)
      ∙ ap (λ n. base_delay * n) (two-pow-succ j)
      ∙ mul-add base_delay (2 ^ j) (2 ^ j)
      ∙ ap (λ n. base_delay * 2 ^ n + base_delay * 2 ^ n) {x = j} {y = 1 + j - 1} (omega arith)

  total_wait : (k : ℕ) → sum (waits (wait_of base_delay) 1 k) + base_delay ≡ base_delay * 2 ^ k
  total_wait k =
      let same : base_delay * 2 ^ (1 + k - 1) ≡ base_delay * 2 ^ k =
        ap (λ n. base_delay * 2 ^ n) (omega arith) in
      omega (arith, same, sum-waits (wait_of base_delay) 1 k wait_of_doubles)

  -- `_retry`, with at least one attempt allowed, ends: it makes between one attempt and all that are
  -- allowed, and answers with the outcome of the last. Every earlier attempt was transient, and the
  -- last was not or was the last allowed. The waits between them add up to the base delay times two to
  -- the power of their number, less one base delay.
  pub retry_ends :
      (l : Link)
      → 0 < max_attempts
      → (r : Ran reply base_delay 1 max_attempts l
          (retry reply max_attempts base_delay l).0
          (retry reply max_attempts base_delay l).1)
        × (sum (waits (wait_of base_delay) 1 r.k) + base_delay ≡ base_delay * 2 ^ r.k)
  unfolding retry
  retry_ends l h =
      let all : suc (max_attempts - 1) ≡ max_attempts = omega arith in
      let r =
        subst (λ n. Runs 1 n l (retry_from reply max_attempts base_delay n 1 l)) all
          (retry_from-Ran (max_attempts - 1) 1 l (omega arith)) in
      (r, total_wait r.k)
