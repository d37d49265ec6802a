-- ===== src/Ai/Client/Ending.antt =====
-- How a call of the client ends: `OpenRouterClient.chat_completion` of clients/openrouter.py.
use native.Mathlib.Nat.{two-pow-succ, mul-add}
use recentthink_ai_be.Common.{
  ℕ, zero, suc, ◌+◌, ◌*◌, ◌^◌, ◌≤◌, ◌<◌, ◌≡◌, refl, String, true, false, Option, none, some, [],
  ◌∷◌, Dict, ◌⊎◌, inl, inr, Bool-cases, arith, sym, ap, subst, ◌∙◌, str_eq,
}
use recentthink_ai_be.Common.Tries.{waits, sum, sum-waits, Tries, Tries-one, Tries-more}
use recentthink_ai_be.Ai.Json.{Json}
use recentthink_ai_be.Ai.Client.Types.{
  ClientSettings, Prompt, Completion, Post, ClientError, Wire, payload,
}
use recentthink_ai_be.Ai.Client.Completion.{
  Result, completed, raised, Received, is_retryable, received_of, posted, pause, post_from,
  selected_model, fallback_to, result_of, request_completion, try_models, chat_completion,
  models_to_try,
}

abbrev pub wait_of : ℕ → ℕ → ℕ
wait_of backoff attempt = backoff * 2 ^ attempt

-- the posts between two states of the wire
abbrev pub Posts : (ℕ → Post) → ℕ → ℕ → ℕ → Wire → Received → Wire → Type 0
Posts reply backoff attempt allowed w r w' =
    Tries (λ n. is_retryable (reply n)) (λ n. received_of (reply n)) (wait_of backoff) attempt
      allowed w.posts w'.posts w.slept w'.slept r

module _ (reply : ℕ → Post) (max_retries backoff : ℕ) where
  abbrev Runs : ℕ → ℕ → Wire → Received × Wire → Type 0
  Runs attempt left w (r, w') = Posts reply backoff attempt left w r w'

  post_from_stop :
      (left attempt : ℕ) (w : Wire)
      → (is_retryable (reply w.posts) ≡ false) ⊎ (max_retries ≤ attempt)
      → post_from reply max_retries backoff (suc left) attempt w
        ≡ (received_of (reply w.posts), posted w)
  unfolding post_from
  post_from_stop left attempt w h = ground arith

  post_from_again :
      (left attempt : ℕ) (w : Wire)
      → is_retryable (reply w.posts) ≡ true
      → attempt < max_retries
      → post_from reply max_retries backoff (suc left) attempt w
        ≡ post_from reply max_retries backoff left
            (attempt + 1)
            (pause (backoff * 2 ^ attempt) (posted w))
  unfolding post_from
  post_from_again left attempt w h lt = ground arith

  Posts-post_from :
      (left attempt : ℕ) (w : Wire)
      → attempt + left ≡ max_retries
      → Runs attempt (suc left) w (post_from reply max_retries backoff (suc left) attempt w)
  Posts-post_from zero attempt w e =
      subst (Runs attempt 1 w) (sym (post_from_stop 0 attempt w (inr (omega arith)))) (
        Tries-one (λ n. is_retryable (reply n)) (λ n. received_of (reply n)) (wait_of backoff)
          attempt 0 w.posts w.slept (inr refl))
  Posts-post_from (suc left) attempt w e = elim (Bool-cases (is_retryable (reply w.posts))) [
    | inr final ↦
        subst (Runs attempt (suc (suc left)) w)
          (sym (post_from_stop (suc left) attempt w (inl final)))
          (Tries-one (λ n. is_retryable (reply n)) (λ n. received_of (reply n)) (wait_of backoff)
            attempt (suc left) w.posts w.slept (inl final))
    | inl again ↦
        subst (Runs attempt (suc (suc left)) w)
          (sym (post_from_again (suc left) attempt w again (omega arith)))
          (Tries-more (λ n. is_retryable (reply n)) (λ n. received_of (reply n)) (wait_of backoff)
            attempt (suc left) w.posts _ w.slept _ _ again
            (Posts-post_from left (attempt + 1) (pause (backoff * 2 ^ attempt) (posted w))
              (omega arith)))
  ]

  total_wait : (k : ℕ) → sum (waits (wait_of backoff) 0 k) + backoff ≡ backoff * 2 ^ k
  total_wait k =
      let first : backoff * 2 ^ 0 ≡ backoff = omega arith in
      let same : backoff * 2 ^ (0 + k) ≡ backoff * 2 ^ k =
        ap (λ n. backoff * 2 ^ n) (omega arith) in
      omega (
        arith,
        first,
        same,
        sum-waits (wait_of backoff) 0 k (λ j.
            ap (λ n. backoff * n) (two-pow-succ (0 + j))
            ∙ mul-add backoff (2 ^ (0 + j)) (2 ^ (0 + j))),
      )

module _ (shown : Json → String) (int_of : String → Option ℕ) (post : Dict Json → ℕ → Post)
    (s : ClientSettings) (p : Prompt) where
  -- A request of one model: between one post and one more than the retries that are allowed, each but the
  -- last one that is tried again, and the last one not or the last allowed; the waits; and the result,
  -- which is read from what the last post brought.
  pub record Requested (model : String) (w : Wire) (o : Result) (w' : Wire) : Type 0 where
    pub brought : Received
    pub posts :
        Posts
          (post (payload p model))
          s.openrouter_retry_backoff
          0
          (suc s.openrouter_max_retries)
          w
          brought
          w'
    pub total :
        sum (waits (wait_of s.openrouter_retry_backoff) 0 posts.k) + s.openrouter_retry_backoff
        ≡ s.openrouter_retry_backoff * 2 ^ posts.k
    pub result : o ≡ result_of shown int_of post s p model brought

  Requested-request :
      (model : String) (w : Wire)
      → Requested model w
          (request_completion shown int_of post s p model w).0
          (request_completion shown int_of post s p model w).1
  unfolding request_completion
  Requested-request model w =
      let posts =
        Posts-post_from (post (payload p model)) s.openrouter_max_retries s.openrouter_retry_backoff
          s.openrouter_max_retries 0 w (omega arith) in
      record {
        brought = _;
        posts = posts;
        total =
            total_wait (post (payload p model)) s.openrouter_max_retries s.openrouter_retry_backoff
              posts.k;
        result = refl;
      }

  -- how a call ends: by the selected model, or after its failure by the fallback
  pub data Chat (w : Wire) (o : Result) (w' : Wire) : Type 0 where
    by_selected :
        ((c : Completion) × (o ≡ completed c)) ⊎ (fallback_to s p ≡ none)
        → Requested (selected_model s p) w o w'
        → Chat w o w'
    by_fallback :
        (fallback : String) (e : ClientError) (between : Wire)
        → fallback_to s p ≡ some fallback
        → Requested (selected_model s p) w (raised e) between
        → Requested fallback between o w'
        → Chat w o w'

  -- and how many posts it makes
  abbrev pub Chats : Wire → Result × Wire → Type 0
  Chats w (o, w') =
      Chat w o w' × (w.posts < w'.posts) × (w'.posts ≤ w.posts + 2 * suc s.openrouter_max_retries)

  Chats-selected :
      (w : Wire) (o : Result) (w' : Wire)
      → ((c : Completion) × (o ≡ completed c)) ⊎ (fallback_to s p ≡ none)
      → Requested (selected_model s p) w o w'
      → Chats w (o, w')
  Chats-selected w o w' h r = (
    by_selected h r,
    omega (arith, r.posts.counted),
    omega (arith, r.posts.counted, r.posts.within),
  )

  Chats-fallback :
      (w between : Wire) (fallback : String) (e : ClientError)
      → fallback_to s p ≡ some fallback
      → Requested (selected_model s p) w (raised e) between
      → Chats w (request_completion shown int_of post s p fallback between)
  Chats-fallback w between fallback e f first =
      let second = Requested-request fallback between in
      (
        by_fallback fallback e between f first second,
        omega (arith, first.posts.counted, second.posts.counted),
        omega (
          arith, first.posts.counted, first.posts.within, second.posts.counted, second.posts.within,
        ),
      )

  Chats-first :
      (w w' : Wire) (fallback : String) (o : Result)
      → fallback_to s p ≡ some fallback
      → Requested (selected_model s p) w o w'
      → Chats w (elim o [
        | completed c ↦ (completed c, w')
        | raised e ↦ request_completion shown int_of post s p fallback w'
      ])
  Chats-first w w' fallback (completed c) f first =
      Chats-selected w (completed c) w' (inl (c, refl)) first
  Chats-first w w' fallback (raised e) f first = Chats-fallback w w' fallback e f first

  Chats-models :
      (w : Wire) (o : Option String)
      → fallback_to s p ≡ o
      → Chats w (
          try_models shown int_of post s p
            (selected_model s p ∷ elim o [ none ↦ [] | some fallback ↦ fallback ∷ [] ])
            w)
  unfolding try_models
  Chats-models w none f = Chats-selected w _ _ (inr f) (Requested-request (selected_model s p) w)
  Chats-models w (some fallback) f =
      Chats-first w _ fallback _ f (Requested-request (selected_model s p) w)

  chat_completion-models :
      (w : Wire)
      → str_eq s.openrouter_api_key "" ≡ false
      → chat_completion shown int_of post s p w
        ≡ try_models shown int_of post s p (models_to_try shown int_of post s p) w
  unfolding chat_completion
  chat_completion-models w key = ground (arith, key)

  -- With a key for the model's service, a call of the client ends. The selected model is asked first, and
  -- its result is that of the call if it is a completion or there is no other model to fall back to;
  -- if it raises and there is one, that one is asked and its result is the call's, whatever it is. One
  -- model is asked by at most one post more than the retries that are allowed, each but the last one
  -- with a transient failure, with waits that add up to the base times two to the power of their number,
  -- less the base; its result is what the last post brought. So a call makes at least one post, and at
  -- most twice as many as the retries and one.
  pub chat_completion_ends :
      (w : Wire)
      → str_eq s.openrouter_api_key "" ≡ false
      → Chats w (chat_completion shown int_of post s p w)
  chat_completion_ends w key =
      subst (Chats w) (sym (chat_completion-models w key)) (Chats-models w (fallback_to s p) refl)
